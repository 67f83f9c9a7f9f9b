-- ===== src/Batch/Process.antt =====
-- Progress of a batch: `processTransaction` and `handleTransactionBatches` of
-- src/crons/transaction.processor/batch.transaction.processor.service.ts.
pub mod Loops
pub mod Terminal
pub mod Success
pub mod Items
pub mod Live
use api_elrond_com.Common.{
  ℕ, zero, suc, ◌+◌, String, Bool, true, false, ◌==◌, string_eq, option_eq, none, some, List, [],
  ◌∷◌, all, filter, length, get_elem?, set, leb, if◌then◌else◌,
}
use api_elrond_com.Batch.{
  BatchTransactionStatus, TransactionBatchStatus, TransactionBatchItem, TransactionBatch,
  is_invalid, is_success, items_at, get_address,
}
use api_elrond_com.Batch.World.{
  ok, batch_updated, Env, M, pure, ◌>>=◌, ◌>>◌, of_option, emit, transaction_batch_key,
  pending_transaction_key,
}
use api_elrond_com.Batch.Execute.{start_transaction_group, hashes_of, with_items}

-- `item.status = status` at `groups[i].items[j]`.
abbrev pub set_status :
    BatchTransactionStatus → TransactionBatch → ℕ → ℕ → TransactionBatchItem → TransactionBatch
set_status status batch i j item =
    with_items batch i (set (items_at batch.groups i) j (record item { status = status }))

abbrev pub with_status : TransactionBatchStatus → TransactionBatch → TransactionBatch
with_status status batch = record batch { status = status }

abbrev pub all_success : List TransactionBatchItem → Bool
all_success items = all (λ item. is_success item.status) items

abbrev pub invalid_items : List TransactionBatchItem → List TransactionBatchItem
invalid_items items = filter (λ item. is_invalid item.status) items

abbrev pub is_batch_pending : TransactionBatchStatus → Bool
is_batch_pending TransactionBatchStatus.pending = true
is_batch_pending _ = false

module _ {B P : Type 0} (env : Env B P) where
  -- What follows the start of the next group.
  unfoldable pub check_started : String → ℕ → TransactionBatch → M B P TransactionBatch
  unfolding get_address
  check_started batch_id next batch = elim (invalid_items (items_at batch.groups next)) [
    | [] ↦ pure batch
    | item ∷ items ↦ (do
      address ← of_option (get_address batch)
      emit (batch_updated address batch_id (hashes_of (item ∷ items)))
      pure (with_status TransactionBatchStatus.invalid batch))
  ]

  unfoldable pub start_next_group : String → ℕ → TransactionBatch → M B P TransactionBatch
  unfolding check_started start_transaction_group
  start_next_group batch_id next batch = do
    started ← start_transaction_group env batch next
    check_started batch_id next started

  -- The group at `i` is done if all its items succeeded.
  unfoldable pub finish_group : String → ℕ → TransactionBatch → M B P TransactionBatch
  unfolding start_next_group
  finish_group batch_id i batch =
      if all_success (items_at batch.groups i)
      then if leb (length batch.groups) (i + 1)
        then pure (with_status TransactionBatchStatus.success batch)
        else start_next_group batch_id (i + 1) batch
      else pure batch

  -- The update of the batch's status, which happens only while it is pending.
  unfoldable pub advance :
      String → BatchTransactionStatus → ℕ → TransactionBatch → M B P TransactionBatch
  unfolding finish_group
  advance batch_id BatchTransactionStatus.invalid i batch =
      if is_batch_pending batch.status
      then pure (with_status TransactionBatchStatus.invalid batch)
      else pure batch
  advance batch_id BatchTransactionStatus.success i batch =
      if is_batch_pending batch.status then finish_group batch_id i batch else pure batch
  advance batch_id _ i batch = pure batch

  unfoldable pub save_at : String → TransactionBatch → M B P TransactionBatch
  save_at key batch w = (ok batch, record w { batches = env.batches.set key batch w.batches })

  module _ (tx_hash batch_id address : String) (status : BatchTransactionStatus) where
    abbrev pub is_hash : TransactionBatchItem → Bool
    is_hash item = item.transaction.hash == some tx_hash

    -- What happens at an item with the reported hash.
    unfoldable pub update_item :
        ℕ → ℕ → TransactionBatchItem → TransactionBatch → M B P TransactionBatch
    unfolding advance save_at
    update_item i j item batch = do
      advanced ← advance batch_id status i (set_status status batch i j item)
      save_at (transaction_batch_key address batch_id) advanced

    -- One round of the inner loop, at `groups[i].items[j]`.
    unfoldable pub visit_item : ℕ → ℕ → TransactionBatch → M B P TransactionBatch
    unfolding update_item
    visit_item i j batch = elim (get_elem? (items_at batch.groups i) j) [
      | none ↦ pure batch
      | some item ↦ if is_hash item then update_item i j item batch else pure batch
    ]

    -- The inner loop, with `n` items to go.
    unfoldable pub visit_items : ℕ → ℕ → ℕ → TransactionBatch → M B P TransactionBatch
    unfolding visit_item
    visit_items zero i j batch = pure batch
    visit_items (suc n) i j batch = do
      visited ← visit_item i j batch
      visit_items n i (suc j) visited

    -- The outer loop, with `n` groups to go.
    unfoldable pub visit_groups : ℕ → ℕ → TransactionBatch → M B P TransactionBatch
    unfolding visit_items
    visit_groups zero i batch = pure batch
    visit_groups (suc n) i batch = do
      visited ← visit_items (length (items_at batch.groups i)) i zero batch
      visit_groups n (suc i) visited

    -- The body of the `try`.
    unfoldable pub update_batch : M B P (Unit {0})
    unfolding visit_groups
    update_batch w = elim (env.batches.get (transaction_batch_key address batch_id) w.batches) [
      | none ↦ (ok tt, w)
      | some batch ↦ (visit_groups (length batch.groups) zero batch >>= λ _. pure tt) w
    ]

    -- The `finally` runs whether or not the body throws.
    unfoldable pub process_transaction : M B P (Unit {0})
    unfolding update_batch
    process_transaction w =
        let done = update_batch w in
        (
          done.0,
          record (done.1) {
            pending = env.pending.delete (pending_transaction_key tx_hash) ((done.1).pending);
          },
        )
