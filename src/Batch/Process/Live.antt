-- ===== src/Batch/Process/Live.antt =====
-- A batch of which the last transaction succeeds ends.
use api_elrond_com.Common.{
  ℕ, zero, suc, ◌+◌, ◌<◌, ◌≤◌, ◌≡◌, ◌≢◌, ◌⊎◌, refl, subst, sym, ap, ◌∙◌, String, true, false, some,
  get_elem?, set, length, arith, inl, inr,
}
use native.Mathlib.Decide.{ℕ_discrete}
use api_elrond_com.Batch.{
  BatchTransactionStatus, TransactionBatchStatus, TransactionBatchItem, TransactionBatch, items_at,
}
use api_elrond_com.Batch.World.{Outcome, ok, pure, World, Env, IsCache, transaction_batch_key}
use api_elrond_com.Batch.World.Laws.{get-set_self}
use api_elrond_com.Batch.Process.{
  set_status, with_status, all_success, is_batch_pending, is_hash, visit_items, visit_groups,
  update_batch, process_transaction,
}
use api_elrond_com.Batch.Process.Items.{
  bind_ok, visit_items_skip, visit_items-success, get_elem?-lt, succeeded, saved,
}

module _ {B P : Type 0} (env : Env B P) (tx_hash batch_id address : String) (i t : ℕ)
    (item : TransactionBatchItem) (b : TransactionBatch) (w : World B P)
    (there : get_elem? (items_at b.groups i) t ≡ some item)
    (same : is_hash env tx_hash batch_id address BatchTransactionStatus.success item ≡ true)
    (only : (k l : ℕ) (x : TransactionBatchItem)
      → (k ≢ i) ⊎ (l ≢ t)
      → get_elem? (items_at b.groups k) l ≡ some x
      → is_hash env tx_hash batch_id address BatchTransactionStatus.success x ≡ false)
    (pending : is_batch_pending b.status ≡ true) (last : length b.groups ≡ i + 1)
    (finished : all_success
        (set (items_at b.groups i) t (record item { status = BatchTransactionStatus.success }))
      ≡ true) where
  abbrev ended : TransactionBatch
  ended = succeeded env tx_hash batch_id address i t item b

  visit_groups-success :
      (n k : ℕ)
      → k ≤ i
      → n + k ≡ i + 1
      → visit_groups env tx_hash batch_id address BatchTransactionStatus.success n k b w
        ≡ (ok ended, saved env tx_hash batch_id address ended w)
  unfolding visit_groups
  visit_groups-success zero k before rounds = absurd (omega arith)
  visit_groups-success (suc n) k before rounds =
      let items = λ (m : ℕ).
        visit_items env tx_hash batch_id address BatchTransactionStatus.success
          (length (items_at b.groups m)) m zero b in
      let groups = λ (m : ℕ) (c : TransactionBatch).
        visit_groups env tx_hash batch_id address BatchTransactionStatus.success n (suc m) c in
      elim (ℕ_discrete k i) [
        | no differ ↦
            let earlier : k < i = ground arith in
            bind_ok (items k) (groups k) w (
              visit_items_skip env tx_hash batch_id address (length (items_at b.groups k)) k zero b
                w (λ l x from_zero h. only k l x (inl differ) h))
            ∙ visit_groups-success n (suc k) earlier (omega (arith, rounds))
        | yes e ↦
            let no_more : n ≡ 0 = omega (arith, rounds, e) in
            subst
              (λ m.
                visit_groups env tx_hash batch_id address BatchTransactionStatus.success (suc n) m b
                  w
                ≡ (ok ended, saved env tx_hash batch_id address ended w))
              (sym e)
              (bind_ok (items i) (groups i) w (
                  visit_items-success env tx_hash batch_id address i t item b w there same
                    (λ l x differ h. only i l x (inr differ) h) pending (omega (arith, last))
                    (omega (arith, last)) finished (length (items_at b.groups i)) zero (omega arith)
                    (omega (arith, get_elem?-lt (items_at b.groups i) t there)))
                ∙ subst
                    (λ m.
                      visit_groups env tx_hash batch_id address BatchTransactionStatus.success m
                        (suc i) ended (saved env tx_hash batch_id address ended w)
                      ≡ (ok ended, saved env tx_hash batch_id address ended w))
                    (sym no_more) refl)
      ]

  update_batch-success :
      env.batches.get (transaction_batch_key address batch_id) w.batches ≡ some b
      → update_batch env tx_hash batch_id address BatchTransactionStatus.success w
        ≡ (ok tt, saved env tx_hash batch_id address ended w)
  unfolding update_batch
  update_batch-success cached =
      let visited =
        visit_groups-success (length b.groups) zero (omega arith) (omega (arith, last)) in
      rw (cached, update_batch)
        (bind_ok
          (visit_groups env tx_hash batch_id address BatchTransactionStatus.success
            (length b.groups) zero b)
          (λ x. pure tt) w visited)

  -- A pending batch that is cached ends: where the transaction that is reported as successful is that of
  -- one item alone, that item is in the last group, and with it all of that group's items are successful,
  -- the batch is stored as successful, and nothing is thrown.
  pub process_transaction_ends :
      IsCache env.batches
      → env.batches.get (transaction_batch_key address batch_id) w.batches ≡ some b
      → ((process_transaction env tx_hash batch_id address BatchTransactionStatus.success w).0
          ≡ ok tt)
        × (env.batches.get
              (transaction_batch_key address batch_id)
              ((process_transaction env tx_hash batch_id address BatchTransactionStatus.success w).1
                ).batches
            ≡ some (
                with_status TransactionBatchStatus.success
                  (set_status BatchTransactionStatus.success b i t item)))
  unfolding process_transaction
  process_transaction_ends laws cached =
      let updated = update_batch-success cached in
      (
        ap (λ (r : Outcome (Unit {0}) × World B P). r.0) updated,
        ap
              (λ (r : Outcome (Unit {0}) × World B P).
                env.batches.get (transaction_batch_key address batch_id) ((r.1).batches))
              updated
            ∙ get-set_self laws (transaction_batch_key address batch_id) ended w.batches,
      )
