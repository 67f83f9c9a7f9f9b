-- ===== src/Batch/Start.antt =====
-- Starting a batch: `startTransactionBatch`, `convertToTransactionBatch`,
-- `convertFromTransactionBatch`, `getTransactionBatch` and `getTransactionBatches` of
-- src/endpoints/transactions.batch/transactions.batch.service.ts, and the endpoints of
-- src/endpoints/transactions.batch/transactions.batch.controller.ts.
pub mod Storage
pub mod Isolation
pub mod Registered
pub mod Convert
use api_elrond_com.Common.{
  zero, String, not, ◌==◌, string_eq, Option, none, some, List, [], ◌∷◌, ◌++◌, map, any,
  if◌then◌else◌, ◌+text◌, is_truthy,
}
use api_elrond_com.Batch.{
  BatchTransactionStatus, TransactionBatchStatus, TransactionDetails, TransactionBatchItem,
  TransactionBatchGroup, TransactionBatch, is_invalid, items_at, get_address,
}
use api_elrond_com.Batch.World.{
  ok, World, Env, M, pure, ◌>>=◌, ◌>>◌, of_option, transaction_batch_key,
}
use api_elrond_com.Batch.Execute.{start_transaction_group}

pub record TransactionBatchSimplified : Type 0 where
  pub id : String
  pub transactions : List (List TransactionDetails)

pub record TransactionDetailsWithResult : Type 0 where
  pub details : TransactionDetails
  pub hash : Option String
  pub status : BatchTransactionStatus
  pub error : Option String

pub record TransactionBatchSimplifiedResult : Type 0 where
  pub id : String
  pub status : TransactionBatchStatus
  pub transactions : List TransactionDetailsWithResult

abbrev pub new_item : TransactionDetails → TransactionBatchItem
new_item tx = record {
  transaction = record { tx = tx; hash = some ""; payload = "" };
  status = BatchTransactionStatus.pending;
  error = none;
}

abbrev pub new_group : List TransactionDetails → TransactionBatchGroup
new_group txs = record { items = map new_item txs }

unfoldable pub convert_to_transaction_batch : TransactionBatchSimplified → TransactionBatch
convert_to_transaction_batch batch = record {
  id = batch.id;
  groups = map new_group batch.transactions;
  status = TransactionBatchStatus.pending;
  source_ip = some "";
}

-- If a batch failed, its pending transactions are shown as failed.
abbrev pub shown_status : TransactionBatchStatus → BatchTransactionStatus → BatchTransactionStatus
shown_status TransactionBatchStatus.invalid BatchTransactionStatus.pending =
    BatchTransactionStatus.invalid
shown_status _ status = status

abbrev pub show_item : TransactionBatchStatus → TransactionBatchItem → TransactionDetailsWithResult
show_item status item = record {
  details = item.transaction.tx;
  hash = item.transaction.hash;
  status = shown_status status item.status;
  error = item.error;
}

-- The two nested loops push the items of each group in turn.
abbrev pub show_groups :
    TransactionBatchStatus → List TransactionBatchGroup → List TransactionDetailsWithResult
show_groups status [] = []
show_groups status (g ∷ gs) = map (show_item status) g.items ++ show_groups status gs

unfoldable pub convert_from_transaction_batch : TransactionBatch → TransactionBatchSimplifiedResult
convert_from_transaction_batch batch = record {
  id = batch.id;
  status = batch.status;
  transactions = show_groups batch.status batch.groups;
}

abbrev pub all_items : List TransactionBatchGroup → List TransactionBatchItem
all_items [] = []
all_items (g ∷ gs) = g.items ++ all_items gs

abbrev pub with_hash : String → TransactionBatchItem → TransactionBatchItem
with_hash hash item =
    let old = item.transaction in record item { transaction = record old { hash = some hash } }

abbrev pub pending_item : TransactionBatchItem → TransactionBatchItem
pending_item item = record item { status = BatchTransactionStatus.pending }

abbrev pub mark_pending : TransactionBatchGroup → TransactionBatchGroup
mark_pending g = record { items = map pending_item g.items }

pub data Response : Type 0 where
  bad_request not_found : String → Response
  answer : TransactionBatchSimplifiedResult → Response

abbrev pub duplicate_message : String → String → String
duplicate_message id address =
    "Duplicate batch detected with id '" +text id +text "' for address " +text address

abbrev pub sender_message : String → String
sender_message address = "Sender for all transactions should be '" +text address +text "'"

-- The batch as it is when its first group is started.
abbrev pub prepared :
    TransactionBatch → Option String → List TransactionBatchGroup → TransactionBatch
prepared batch source_ip groups = record batch {
  groups = map mark_pending groups;
  status = TransactionBatchStatus.pending;
  source_ip = source_ip;
}

-- `headers['x-forwarded-for'] || headers['x-real-ip']`
abbrev pub source_ip_of : Option String → Option String → Option String
source_ip_of forwarded real = if is_truthy forwarded then forwarded else real

module _ {B P : Type 0} (env : Env B P) where
  -- The first pair of loops of `startTransactionBatch`.
  unfoldable pub hash_items : List TransactionBatchItem → M B P (List TransactionBatchItem)
  hash_items [] = pure []
  hash_items (item ∷ items) = do
    hash ← of_option (env.compute_hash item.transaction.tx)
    rest ← hash_items items
    pure (with_hash hash item ∷ rest)

  unfoldable pub hash_groups : List TransactionBatchGroup → M B P (List TransactionBatchGroup)
  unfolding hash_items
  hash_groups [] = pure []
  hash_groups (g ∷ gs) = do
    items ← hash_items g.items
    rest ← hash_groups gs
    pure (record { items = items } ∷ rest)

  -- `setCacheRemote(CacheInfo.TransactionBatch(getAddress(batch), batch.id).key, batch)`
  abbrev pub save : String → TransactionBatch → M B P (Unit {0})
  save key batch w = (ok tt, record w { batches = env.batches.set key batch w.batches })

  -- The part behind the first group's start.
  unfoldable pub finish_start : TransactionBatch → M B P TransactionBatch
  unfolding get_address
  finish_start batch =
      if any (λ item. is_invalid item.status) (items_at batch.groups zero)
      then pure (record batch { status = TransactionBatchStatus.invalid })
      else (do
        address ← of_option (get_address batch)
        save (transaction_batch_key address batch.id) batch
        pure batch)

  unfoldable pub start_transaction_batch : TransactionBatch → Option String → M B P TransactionBatch
  unfolding hash_groups finish_start start_transaction_group
  start_transaction_batch batch source_ip = elim (batch.groups) [
    | [] ↦ pure batch
    | g ∷ gs ↦ (do
      groups ← hash_groups (g ∷ gs)
      started ← start_transaction_group env (prepared batch source_ip groups) zero
      finish_start started)
  ]

  unfoldable pub get_transaction_batch : String → String → World B P → Option TransactionBatch
  get_transaction_batch address batch_id w =
      env.batches.get (transaction_batch_key address batch_id) w.batches

  unfoldable pub post_batch :
      String → TransactionBatchSimplified → Option String → Option String → M B P Response
  unfolding convert_to_transaction_batch convert_from_transaction_batch get_transaction_batch
      start_transaction_batch
  post_batch address batch forwarded real w =
      let converted = convert_to_transaction_batch batch in
      elim (get_transaction_batch address converted.id w) [
        | some existing ↦ (ok (bad_request (duplicate_message batch.id address)), w)
        | none ↦
            if any (λ item. not (item.transaction.tx.sender == address))
              (all_items converted.groups)
            then (ok (bad_request (sender_message address)), w)
            else (do
              started ← start_transaction_batch converted (source_ip_of forwarded real)
              pure (answer (convert_from_transaction_batch started)))
                w
      ]

  unfoldable pub get_batch : String → String → World B P → Response
  unfolding get_transaction_batch convert_from_transaction_batch
  get_batch address batch_id w = elim (get_transaction_batch address batch_id w) [
    | none ↦ not_found "Transaction batch not found"
    | some batch ↦ answer (convert_from_transaction_batch batch)
  ]
