-- ===== src/Batch/Execute.antt =====
-- Submission of transactions: `createTransaction` of src/endpoints/transactions/transaction.service.ts
-- and `executeTransaction`, `startTransactionGroup` of
-- src/endpoints/transactions.batch/transactions.batch.service.ts.
pub mod Frame
pub mod Submission
pub mod Prefix
use api_elrond_com.Common.{
  ℕ, String, Option, none, some, List, [], ◌∷◌, ◌++◌, map, filter, set, if◌then◌else◌, ◌+text◌,
  to_text,
}
use api_elrond_com.Batch.{
  BatchTransactionStatus, TransactionDetails, TransactionBatchItem, TransactionBatch, is_pending,
  is_invalid, items_at, get_address,
}
use api_elrond_com.Batch.World.{
  Failure, Outcome, ok, thrown, SendResult, sent, text, accepted, refused, quiet, answers, throws,
  World, Env, M, pure, throw, ◌>>=◌, ◌>>◌, of_option, pending_transaction_key,
}

-- `result.txHash`: a string has no such property.
abbrev pub tx_hash_of : SendResult → Option String
tx_hash_of (sent r) = r.tx_hash
tx_hash_of (text _) = none

-- The error that an item keeps: the decoded message, or what it had where decoding fails.
abbrev pub error_after : Failure → Option String → Option String
error_after f old = elim (f.message) [ none ↦ old | some m ↦ m ]

-- What `executeTransaction` does to the item when `createTransaction` returns or throws.
unfoldable pub settle : TransactionBatchItem → Outcome SendResult → TransactionBatchItem
settle item (ok result) =
    let old = item.transaction in
    record item { transaction = record old { hash = tx_hash_of result } }
settle item (thrown f) = record item {
  status = BatchTransactionStatus.invalid;
  error = error_after f item.error;
}

abbrev pub tx_of : TransactionBatchItem → TransactionDetails
tx_of item = item.transaction.tx

abbrev pub hashes_of : List TransactionBatchItem → List (Option String)
hashes_of items = map (λ item. item.transaction.hash) items

abbrev pub with_items : TransactionBatch → ℕ → List TransactionBatchItem → TransactionBatch
with_items batch i items = record batch { groups = set batch.groups i (record { items = items }) }

module _ {B P : Type 0} (env : Env B P) where
  -- `gatewayService.create('transaction/send', …)`, whose refusal is caught and returned as a text.
  unfoldable pub send_to_gateway : TransactionDetails → ℕ → ℕ → M B P SendResult
  send_to_gateway tx receiver_shard sender_shard w =
      let w' = record w { submitted = w.submitted ++ tx ∷ [] } in
      elim (env.gateway w.submitted tx) [
        | refused message ↦ (ok (text message), w')
        | accepted hash ↦ (
          ok (
              sent (record {
                receiver = tx.receiver;
                receiver_shard = receiver_shard;
                sender = tx.sender;
                sender_shard = sender_shard;
                tx_hash = hash;
              })),
          w',
        )
      ]

  unfoldable pub create_transaction : TransactionDetails → M B P SendResult
  unfolding send_to_gateway
  create_transaction tx = do
    receiver_shard ← of_option (env.shard_of tx.receiver)
    sender_shard ← of_option (env.shard_of tx.sender)
    elim (env.plugin tx) [
      | answers result ↦ pure result
      | throws f ↦ throw f
      | quiet ↦ send_to_gateway tx receiver_shard sender_shard
    ]

  unfoldable pub execute_transaction :
      TransactionBatchItem → World B P → TransactionBatchItem × World B P
  unfolding create_transaction settle
  execute_transaction item w =
      let result = create_transaction item.transaction.tx w in (settle item (result.0), result.1)

  -- The loop of `startTransactionGroup`: the group's items after it, the results, and the world.
  unfoldable pub execute_items :
      List TransactionBatchItem
      → World B P
      → List TransactionBatchItem × List TransactionBatchItem × World B P
  unfolding execute_transaction
  execute_items [] w = ([], [], w)
  execute_items (item ∷ items) w =
      let done = execute_transaction item w in
      let rest = execute_items items (done.1) in
      if is_invalid ((done.0).status)
      then (done.0 ∷ items, done.0 ∷ [], done.1)
      else (done.0 ∷ rest.0, done.0 ∷ rest.1, rest.2)

  -- One `setCacheRemote(CacheInfo.PendingTransaction(hash), value)` for each hash.
  unfoldable pub register : String → List (Option String) → P → P
  register value [] s = s
  register value (hash ∷ hashes) s =
      register value hashes (env.pending.set (pending_transaction_key (to_text hash)) value s)

  -- The value of a pending transaction: `id;address;date`.
  abbrev pub pending_value : String → String → ℕ → String
  pending_value id address now = id +text ";" +text address +text ";" +text env.iso now

  unfoldable pub register_results : TransactionBatch → List TransactionBatchItem → M B P (Unit {0})
  unfolding register get_address
  register_results batch results = do
    address ← of_option (get_address batch)
    λ w. (
      ok tt,
      record w {
        pending =
            register (pending_value batch.id address w.now)
              (hashes_of (filter (λ item. is_pending item.status) results)) w.pending;
      },
    )

  -- The group is given by its index: its items are changed in place in the batch.
  unfoldable pub start_transaction_group : TransactionBatch → ℕ → M B P TransactionBatch
  unfolding execute_items register_results
  start_transaction_group batch i w =
      let run = execute_items (items_at batch.groups i) w in
      let batch' = with_items batch i (run.0) in
      (register_results batch' (run.1) >> pure batch') (run.2)
