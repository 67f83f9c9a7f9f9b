-- ===== src/Batch/Process/Terminal.antt =====
-- A batch that has left the state `pending` stays as it is, whatever is reported about it.
use api_elrond_com.Common.{ℕ, zero, ◌≡◌, ◌≢◌, refl, String, false, some, length}
use api_elrond_com.Batch.{
  BatchTransactionStatus, TransactionBatchStatus, TransactionBatchItem, TransactionBatch,
}
use api_elrond_com.Batch.World.{
  Outcome, ok, World, Env, IsCache, pure, thrown, transaction_batch_key,
}
use api_elrond_com.Batch.World.Ends.{Ends, bind-Ends}
use api_elrond_com.Batch.World.Laws.{get-set_self}
use api_elrond_com.Batch.Process.{
  set_status, is_batch_pending, advance, save_at, update_item, visit_groups, update_batch,
  process_transaction,
}
use api_elrond_com.Batch.Process.Loops.{visit_item-Ends, visit_groups-Ends}

is_batch_pending_of_ne :
    (s : TransactionBatchStatus) → s ≢ TransactionBatchStatus.pending → is_batch_pending s ≡ false
is_batch_pending_of_ne TransactionBatchStatus.pending h = absurd (h refl)
is_batch_pending_of_ne _ h = refl

module _ {B P : Type 0} (env : Env B P) where
  advance_terminal :
      (batch_id : String) (status : BatchTransactionStatus) (i : ℕ) (b : TransactionBatch)
      (w : World B P)
      → is_batch_pending b.status ≡ false
      → Ends (λ b' w'. (b' ≡ b) × (w' ≡ w)) (λ _. ⊥) (advance env batch_id status i b w)
  unfolding advance
  advance_terminal batch_id BatchTransactionStatus.invalid i b w h = rw h (refl, refl)
  advance_terminal batch_id BatchTransactionStatus.success i b w h = rw h (refl, refl)
  advance_terminal batch_id _ i b w h = (refl, refl)

  module _ (laws : IsCache env.batches) (tx_hash batch_id address : String)
      (status : BatchTransactionStatus) (final : TransactionBatchStatus) (w₀ : World B P) where
    -- The cache holds the batch with this status, and nothing was sent, said or registered.
    pub record IsKept (w : World B P) : Type 0 where
      pub cached : TransactionBatch
      pub found : env.batches.get (transaction_batch_key address batch_id) w.batches ≡ some cached
      pub same_status : cached.status ≡ final
      pub same_submitted : w.submitted ≡ w₀.submitted
      pub same_events : w.events ≡ w₀.events

    update_item-IsKept :
        is_batch_pending final ≡ false
        → (i j : ℕ) (item : TransactionBatchItem) (b : TransactionBatch) (w : World B P)
        → (b.status ≡ final) × IsKept w
        → Ends
            (λ b w. (b.status ≡ final) × IsKept w)
            (λ _. ⊥)
            (update_item env tx_hash batch_id address status i j item b w)
    unfolding update_item save_at
    update_item-IsKept done i j item b w (same, kept) =
        bind-Ends (λ b' w'. (b' ≡ set_status status b i j item) × (w' ≡ w))
          (λ b' w'. (b'.status ≡ final) × IsKept w') (λ _. ⊥)
          (advance env batch_id status i (set_status status b i j item))
          (save_at env (transaction_batch_key address batch_id)) w
          (advance_terminal batch_id status i (set_status status b i j item) w (rw same done))
          (λ b' w' (b_eq, w_eq). (
            rw b_eq same,
            record {
              cached = b';
              found = get-set_self laws (transaction_batch_key address batch_id) b' w'.batches;
              same_status = rw b_eq same;
              same_submitted = rw w_eq kept.same_submitted;
              same_events = rw w_eq kept.same_events;
            },
          ))

    visit_groups-IsKept :
        is_batch_pending final ≡ false
        → (n i : ℕ) (b : TransactionBatch) (w : World B P) → (b.status ≡ final) × IsKept w
        → Ends
            (λ b w. (b.status ≡ final) × IsKept w)
            (λ _. ⊥)
            (visit_groups env tx_hash batch_id address status n i b w)
    visit_groups-IsKept done =
        visit_groups-Ends env tx_hash batch_id address status (λ b w. (b.status ≡ final) × IsKept w)
          (λ _. ⊥)
          (λ i j b w h.
            visit_item-Ends env tx_hash batch_id address status
              (λ b w. (b.status ≡ final) × IsKept w) (λ _. ⊥) i j b w h
              (λ item _. update_item-IsKept done i j item b w h))

    update_batch-IsKept :
        is_batch_pending final ≡ false
        → IsKept w₀
        → Ends (λ _ w. IsKept w) (λ _. ⊥) (update_batch env tx_hash batch_id address status w₀)
    unfolding update_batch
    update_batch-IsKept done kept =
        rw (kept.found, update_batch)
          (bind-Ends (λ b w. (b.status ≡ final) × IsKept w) (λ _ w. IsKept w) (λ _. ⊥)
            (visit_groups env tx_hash batch_id address status (length kept.cached.groups) zero
              kept.cached)
            (λ _. pure tt) w₀
            (visit_groups-IsKept done (length kept.cached.groups) zero kept.cached w₀
              (kept.same_status, kept))
            (λ b w h. h.1))

    returned :
        (r : Outcome (Unit {0}) × World B P)
        → Ends (λ _ w. IsKept w) (λ _. ⊥) r
        → (r.0 ≡ ok tt) × IsKept (r.1)
    returned (ok tt, w) h = (refl, h)
    returned (thrown f, w) h = absurd h

  -- Where the cached batch is no longer pending, processing a transaction returns without an error,
  -- leaves the batch in the cache with the status that it has, and neither submits a transaction
  -- nor publishes an event, whatever the reported hash and status.
  pub process_transaction_terminal :
      (laws : IsCache env.batches) (tx_hash batch_id address : String)
      (status : BatchTransactionStatus) (w : World B P) (b : TransactionBatch)
      → env.batches.get (transaction_batch_key address batch_id) w.batches ≡ some b
      → b.status ≢ TransactionBatchStatus.pending
      → ((process_transaction env tx_hash batch_id address status w).0 ≡ ok tt)
        × ((b' : TransactionBatch) × (env.batches.get
                (transaction_batch_key address batch_id)
                ((process_transaction env tx_hash batch_id address status w).1).batches
              ≡ some b')
            × (b'.status ≡ b.status))
        × (((process_transaction env tx_hash batch_id address status w).1).submitted ≡ w.submitted)
        × (((process_transaction env tx_hash batch_id address status w).1).events ≡ w.events)
  unfolding process_transaction
  process_transaction_terminal laws tx_hash batch_id address status w b found done =
      let start : IsKept laws tx_hash batch_id address status b.status w w = record {
        cached = b;
        found = found;
        same_status = refl;
        same_submitted = refl;
        same_events = refl;
      } in
      let (out, kept) =
        returned laws tx_hash batch_id address status b.status w
          (update_batch env tx_hash batch_id address status w)
          (update_batch-IsKept laws tx_hash batch_id address status b.status w
            (is_batch_pending_of_ne b.status done) start) in
      (out, (kept.cached, kept.found, kept.same_status), kept.same_submitted, kept.same_events)
