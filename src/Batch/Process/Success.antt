-- ===== src/Batch/Process/Success.antt =====
-- When a batch becomes successful.
use api_elrond_com.Common.{
  ℕ, zero, ◌+◌, ◌-◌, ◌<◌, ◌≤◌, ◌≡◌, ◌≢◌, refl, subst, sym, ◌∙◌, String, true, some, get_elem?, set,
  leb, leb→le, length, length-set, Bool-cases, Option-cases, List-cases, arith, inl, inr,
}
use mathlib.Core.Option.{some-injective}
use native.Mathlib.Decide.{ℕ_discrete}
use api_elrond_com.Batch.{
  BatchTransactionStatus, TransactionBatchStatus, TransactionBatchItem, TransactionBatch, items_at,
  get_address,
}
use api_elrond_com.Batch.Groups.{
  items_at-set_self, items_at-set_ne, lt_of_get_elem?, all-set_success,
}
use api_elrond_com.Batch.World.{pure, of_option, World, Env, IsCache, transaction_batch_key}
use api_elrond_com.Batch.World.Ends.{Ends, Ends-weaken, Ends-world, bind-Ends}
use api_elrond_com.Batch.World.Laws.{get-set_self}
use api_elrond_com.Batch.Execute.{start_transaction_group}
use api_elrond_com.Batch.Execute.Frame.{IsStarted, start_transaction_group-IsStarted}
use api_elrond_com.Batch.Process.{
  set_status, all_success, invalid_items, is_batch_pending, advance, finish_group, check_started,
  start_next_group, save_at, update_item, visit_groups, update_batch, process_transaction,
}
use api_elrond_com.Batch.Process.Loops.{visit_item-Ends, visit_groups-Ends}

-- All the transactions of the batch's last group are successful.
abbrev pub IsLastSuccess : TransactionBatch → Type 0
IsLastSuccess b = all_success (items_at b.groups (length b.groups - 1)) ≡ true

-- A successful batch was made so by a report of success on a last group that is done.
abbrev pub IsEarned : BatchTransactionStatus → TransactionBatch → Type 0
IsEarned status b =
    b.status ≡ TransactionBatchStatus.success
    → (status ≡ BatchTransactionStatus.success) × IsLastSuccess b

set_status-IsEarned :
    (status : BatchTransactionStatus) (b : TransactionBatch) (i j : ℕ) (item : TransactionBatchItem)
    → i < length b.groups
    → IsEarned status b
    → IsEarned status (set_status status b i j item)
set_status-IsEarned status b i j item h earned e =
    let (reported, last) = earned e in
    let n = length b.groups - 1 in
    let items = set (items_at b.groups i) j (record item { status = status }) in
    (
      reported,
      rw (length-set b.groups i (record { items = items })) (elim (ℕ_discrete i n) [
        | yes same ↦ rw (← same) (
            rw (items_at-set_self b.groups i items h) (
              all-set_success (items_at b.groups i) j (record item { status = status })
                (rw reported refl) (rw (← same) at last)))
        | no differ ↦ rw (items_at-set_ne b.groups i n (record { items = items }) differ) last
      ]),
    )

last_index : (n i : ℕ) → i < n → n ≤ i + 1 → i ≡ n - 1
last_index n i h k = omega arith

not_both :
    (s : TransactionBatchStatus)
    → s ≡ TransactionBatchStatus.pending
    → s ≡ TransactionBatchStatus.success
    → ⊥
not_both s p q = cc

pending_of :
    (s : TransactionBatchStatus) → is_batch_pending s ≡ true → s ≡ TransactionBatchStatus.pending
pending_of TransactionBatchStatus.pending h = refl
pending_of _ h = cc

module _ {B P : Type 0} (env : Env B P) where
  check_started-status :
      (batch_id : String) (next : ℕ) (b : TransactionBatch) (w w₀ : World B P)
      → b.status ≡ TransactionBatchStatus.pending
      → w.batches ≡ w₀.batches
      → Ends
          (λ b' w'. (b'.status ≢ TransactionBatchStatus.success) × (w'.batches ≡ w₀.batches))
          (λ w'. w'.batches ≡ w₀.batches)
          (check_started env batch_id next b w)
  unfolding check_started
  check_started-status batch_id next b w w₀ s h =
      elim (List-cases (invalid_items (items_at b.groups next))) [
        | inl none_invalid ↦ rw (none_invalid, check_started) ((λ e. cc), h)
        | inr (item, rest, some_invalid) ↦
            rw (some_invalid, check_started)
              (elim (Option-cases (get_address b)) [
                | inl missing ↦ rw (missing, of_option) h
                | inr (address, found) ↦ rw (found, of_option) ((λ e. cc), h)
              ])
      ]

  start_next_group-status :
      (batch_id : String) (next : ℕ) (b : TransactionBatch) (w : World B P)
      → b.status ≡ TransactionBatchStatus.pending
      → Ends
          (λ b' w'. (b'.status ≢ TransactionBatchStatus.success) × (w'.batches ≡ w.batches))
          (λ w'. w'.batches ≡ w.batches)
          (start_next_group env batch_id next b w)
  unfolding start_next_group
  start_next_group-status batch_id next b w s =
      bind-Ends (IsStarted env b w)
        (λ b' w'. (b'.status ≢ TransactionBatchStatus.success) × (w'.batches ≡ w.batches))
        (λ w'. w'.batches ≡ w.batches) (start_transaction_group env b next)
        (check_started env batch_id next) w (start_transaction_group-IsStarted env b next w)
        (λ b' w' (same, _, _, kept). check_started-status batch_id next b' w' w (same ∙ s) kept)

  finish_group-IsEarned :
      (batch_id : String) (i : ℕ) (b : TransactionBatch) (w : World B P)
      → i < length b.groups
      → b.status ≡ TransactionBatchStatus.pending
      → Ends
          (λ b' w'. IsEarned BatchTransactionStatus.success b' × (w'.batches ≡ w.batches))
          (λ w'. w'.batches ≡ w.batches)
          (finish_group env batch_id i b w)
  unfolding finish_group
  finish_group-IsEarned batch_id i b w h s = elim (Bool-cases (all_success (items_at b.groups i))) [
    | inr unfinished ↦ rw unfinished ((λ e. cc), refl)
    | inl finished ↦ rw finished (elim (Bool-cases (leb (length b.groups) (i + 1))) [
      | inl last ↦ rw last (
        (λ _. (
          refl,
          subst (λ k. all_success (items_at b.groups k) ≡ true)
              (last_index (length b.groups) i h (leb→le (length b.groups) (i + 1) last)) finished,
        )),
        refl,
      )
      | inr more ↦ rw more (
          Ends-weaken
            (λ b' w'. (b'.status ≢ TransactionBatchStatus.success) × (w'.batches ≡ w.batches))
            (λ b' w'. IsEarned BatchTransactionStatus.success b' × (w'.batches ≡ w.batches))
            (λ w'. w'.batches ≡ w.batches) (λ w'. w'.batches ≡ w.batches)
            (start_next_group env batch_id (i + 1) b w)
            (λ b' w' (open_, kept). ((λ e. absurd (open_ e)), kept)) (λ w' kept. kept)
            (start_next_group-status batch_id (i + 1) b w s))
    ])
  ]

  advance-IsEarned :
      (batch_id : String) (status : BatchTransactionStatus) (i : ℕ) (b : TransactionBatch)
      (w : World B P)
      → i < length b.groups
      → IsEarned status b
      → Ends
          (λ b' w'. IsEarned status b' × (w'.batches ≡ w.batches))
          (λ w'. w'.batches ≡ w.batches)
          (advance env batch_id status i b w)
  unfolding advance
  advance-IsEarned batch_id BatchTransactionStatus.invalid i b w h earned =
      elim (Bool-cases (is_batch_pending b.status)) [
        | inl open_ ↦ rw open_ ((λ e. cc), refl)
        | inr done ↦ rw done (earned, refl)
      ]
  advance-IsEarned batch_id BatchTransactionStatus.success i b w h earned =
      elim (Bool-cases (is_batch_pending b.status)) [
        | inl open_ ↦ rw open_ (finish_group-IsEarned batch_id i b w h (pending_of b.status open_))
        | inr done ↦ rw done (earned, refl)
      ]
  advance-IsEarned batch_id _ i b w h earned = (earned, refl)

  module _ (laws : IsCache env.batches) (tx_hash batch_id address : String)
      (status : BatchTransactionStatus) where
    -- The batch that the cache holds, if it holds one, earned its success.
    abbrev IsCachedEarned : World B P → Type 0
    IsCachedEarned w =
        (b : TransactionBatch)
        → env.batches.get (transaction_batch_key address batch_id) w.batches ≡ some b
        → IsEarned status b

    update_item-IsEarned :
        (i j : ℕ) (item : TransactionBatchItem) (b : TransactionBatch) (w : World B P)
        → get_elem? (items_at b.groups i) j ≡ some item
        → IsEarned status b × IsCachedEarned w
        → Ends
            (λ b w. IsEarned status b × IsCachedEarned w)
            IsCachedEarned
            (update_item env tx_hash batch_id address status i j item b w)
    unfolding update_item save_at
    update_item-IsEarned i j item b w found (earned, cached) =
        let b' = set_status status b i j item in
        let here = lt_of_get_elem? b.groups i j found in
        bind-Ends (λ b' w'. IsEarned status b' × (w'.batches ≡ w.batches))
          (λ b w. IsEarned status b × IsCachedEarned w) IsCachedEarned
          (advance env batch_id status i (set_status status b i j item))
          (save_at env (transaction_batch_key address batch_id)) w
          (Ends-weaken (λ b' w'. IsEarned status b' × (w'.batches ≡ w.batches))
            (λ b' w'. IsEarned status b' × (w'.batches ≡ w.batches)) (λ w'. w'.batches ≡ w.batches)
            IsCachedEarned (advance env batch_id status i b' w) (λ _ _ h. h)
            (λ w' kept c e. cached c (rw (← kept) e))
            (advance-IsEarned batch_id status i b' w
              (rw
                (length-set b.groups i (record {
                  items = set (items_at b.groups i) j (record item { status = status });
                }))
                here)
              (set_status-IsEarned status b i j item here earned)))
          (λ b' w' (good, kept). (
            good,
            λ c e.
                subst (IsEarned status)
                  (some-injective _ _ (
                    sym (get-set_self laws (transaction_batch_key address batch_id) b' w'.batches)
                    ∙ e))
                  good,
          ))

    update_batch-IsEarned :
        (w : World B P) (b : TransactionBatch)
        → env.batches.get (transaction_batch_key address batch_id) w.batches ≡ some b
        → b.status ≡ TransactionBatchStatus.pending
        → Ends
            (λ _ w. IsCachedEarned w)
            IsCachedEarned
            (update_batch env tx_hash batch_id address status w)
    unfolding update_batch
    update_batch-IsEarned w b found s =
        rw (found, update_batch)
          (bind-Ends (λ b w. IsEarned status b × IsCachedEarned w) (λ _ w. IsCachedEarned w)
            IsCachedEarned
            (visit_groups env tx_hash batch_id address status (length b.groups) zero b)
            (λ _. pure tt) w
            (visit_groups-Ends env tx_hash batch_id address status
              (λ b w. IsEarned status b × IsCachedEarned w) IsCachedEarned
              (λ i j b w h.
                visit_item-Ends env tx_hash batch_id address status
                  (λ b w. IsEarned status b × IsCachedEarned w) IsCachedEarned i j b w h
                  (λ item here. update_item-IsEarned i j item b w here h))
              (length b.groups) zero b w
              (
                (λ e. absurd (not_both b.status s e)),
                (λ c e.
                    subst (IsEarned status) (some-injective _ _ (sym found ∙ e))
                      (λ e. absurd (not_both b.status s e))),
              ))
            (λ b w h. h.1))

  -- Where a pending batch is found successful after a transaction was processed, the transaction was
  -- reported successful and every transaction of the batch's last group is successful.
  pub process_transaction_success :
      (laws : IsCache env.batches) (tx_hash batch_id address : String)
      (status : BatchTransactionStatus) (w : World B P) (b b' : TransactionBatch)
      → env.batches.get (transaction_batch_key address batch_id) w.batches ≡ some b
      → b.status ≡ TransactionBatchStatus.pending
      → env.batches.get
          (transaction_batch_key address batch_id)
          ((process_transaction env tx_hash batch_id address status w).1).batches
        ≡ some b'
      → b'.status ≡ TransactionBatchStatus.success
      → (status ≡ BatchTransactionStatus.success) × IsLastSuccess b'
  unfolding process_transaction
  process_transaction_success laws tx_hash batch_id address status w b b' found s found' e =
      Ends-world (IsCachedEarned laws tx_hash batch_id address status)
        (update_batch env tx_hash batch_id address status w)
        (update_batch-IsEarned laws tx_hash batch_id address status w b found s) b' found' e
