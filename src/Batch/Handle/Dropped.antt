-- ===== src/Batch/Handle/Dropped.antt =====
-- What the job for dropped transactions may change in a batch.
use mathlib.Core.Path.{ap₂}
use mathlib.Core.Option.{some-injective}
use api_elrond_com.Batch.World.Laws.{get-set_self}
use native.Mathlib.Decide.{ℕ_discrete}
use api_elrond_com.Common.{
  subst, ap, ℕ, zero, suc, ◌≡◌, ◌≢◌, refl, sym, ◌∙◌, String, Bool, true, false, string_eq,
  option_eq, none, some, List, ◌⊎◌, inl, inr, get_elem?, length, Bool-cases, Option-cases, arith,
}
use api_elrond_com.Batch.{
  BatchTransactionStatus, TransactionBatchStatus, TransactionBatchItem, TransactionBatch,
  is_pending, items_at,
}
use api_elrond_com.Batch.Groups.{get_elem?-items_at-set_ne}
use api_elrond_com.Batch.World.{World, Env, IsCache, transaction_batch_key}
use api_elrond_com.Batch.Handle.{
  PendingTransaction, ProcessedTransaction, is_dropped, drop_update, drop_item, drop_items,
  drop_groups, drop_one, is_recent, TransactionLookup,
}

-- Every item that is not pending stands where it stood, as it was.
abbrev pub KeepsSettled : TransactionBatch → TransactionBatch → Type 0
KeepsSettled b b' =
    (k l : ℕ) (item : TransactionBatchItem)
    → get_elem? (items_at b.groups k) l ≡ some item
    → is_pending item.status ≡ false
    → get_elem? (items_at b'.groups k) l ≡ some item

not_pending :
    (s : BatchTransactionStatus) → s ≢ BatchTransactionStatus.pending → is_pending s ≡ false
not_pending BatchTransactionStatus.pending h = absurd (h refl)
not_pending _ h = refl

lookup-cases :
    (t : TransactionLookup)
    → (t ≡ TransactionLookup.absent)
      ⊎ ((t ≡ TransactionLookup.present) ⊎ (t ≡ TransactionLookup.failed))
lookup-cases TransactionLookup.absent = inl refl
lookup-cases TransactionLookup.present = inr (inl refl)
lookup-cases TransactionLookup.failed = inr (inr refl)

differ :
    (x item : TransactionBatchItem)
    → is_pending x.status ≡ true
    → is_pending item.status ≡ false
    → some x ≡ some item
    → ⊥
differ x item p q e =
    true-ne-false _ _ p q
      (ap (λ (y : TransactionBatchItem). is_pending y.status) (some-injective x item e))
  where
    true-ne-false : (a b : Bool) → a ≡ true → b ≡ false → a ≡ b → ⊥
    true-ne-false a b p q e = cc

module _ {B P : Type 0} (env : Env B P) (p : PendingTransaction) where
  drop_update-KeepsSettled :
      (i j : ℕ) (x : TransactionBatchItem) (b₀ b : TransactionBatch)
      → get_elem? (items_at b.groups i) j ≡ some x
      → is_pending x.status ≡ true
      → KeepsSettled b₀ b
      → KeepsSettled b₀ (drop_update env p i j x b)
  drop_update-KeepsSettled i j x b₀ b here open_ keeps k l item found settled =
      let dropped = record x { status = BatchTransactionStatus.dropped } in
      let there = keeps k l item found settled in
      elim (ℕ_discrete i k) [
        | no ne ↦ get_elem?-items_at-set_ne b.groups i j k l dropped (inl ne) ∙ there
        | yes same_i ↦ elim (ℕ_discrete j l) [
          | no ne ↦ get_elem?-items_at-set_ne b.groups i j k l dropped (inr ne) ∙ there
          | yes same_j ↦ absurd (
              differ x item open_ settled
                (sym here ∙ ap₂ (λ a c. get_elem? (items_at b.groups a) c) same_i same_j ∙ there))
        ]
      ]

  -- The batch at hand is what the cache holds; it is the first one, or it is marked as dropped and
  -- keeps the first one's settled items.
  pub record IsDropState (b₀ b : TransactionBatch) (w : World B P) : Type 0 where
    pub cached : env.batches.get (transaction_batch_key p.address p.batch_id) w.batches ≡ some b
    pub keeps : KeepsSettled b₀ b
    pub marked : (b ≡ b₀) ⊎ (b.status ≡ TransactionBatchStatus.dropped)

  module _ (laws : IsCache env.batches) (b₀ : TransactionBatch) where
    abbrev State : Type 0
    State = TransactionBatch × List ProcessedTransaction × World B P

    drop_item-IsDropState :
        (i j : ℕ) (s : State)
        → IsDropState b₀ (s.0) (s.2)
        → IsDropState b₀ ((drop_item env p i j s).0) ((drop_item env p i j s).2)
    unfolding drop_item
    drop_item-IsDropState i j (b, processed, w) h =
        elim (Option-cases (get_elem? (items_at b.groups i) j)) [
          | inl missing ↦ rw (missing, drop_item) h
          | inr (x, here) ↦
              rw (here, drop_item)
                (elim (Bool-cases (is_dropped env p x)) [
                  | inl hit ↦ rw hit (record {
                    cached =
                        get-set_self laws (transaction_batch_key p.address p.batch_id)
                          (drop_update env p i j x b) w.batches;
                    keeps = drop_update-KeepsSettled i j x b₀ b here (ground arith) h.keeps;
                    marked = inr refl;
                  })
                  | inr miss ↦ rw miss h
                ])
        ]

    drop_items-IsDropState :
        (n i j : ℕ) (s : State)
        → IsDropState b₀ (s.0) (s.2)
        → IsDropState b₀ ((drop_items env p n i j s).0) ((drop_items env p n i j s).2)
    unfolding drop_items
    drop_items-IsDropState zero i j s h = h
    drop_items-IsDropState (suc n) i j s h =
        drop_items-IsDropState n i (suc j) (drop_item env p i j s) (drop_item-IsDropState i j s h)

    drop_groups-IsDropState :
        (n i : ℕ) (s : State)
        → IsDropState b₀ (s.0) (s.2)
        → IsDropState b₀ ((drop_groups env p n i s).0) ((drop_groups env p n i s).2)
    unfolding drop_groups
    drop_groups-IsDropState zero i s h = h
    drop_groups-IsDropState (suc n) i s h =
        drop_groups-IsDropState n (suc i)
          (drop_items env p (length (items_at (s.0).groups i)) i zero s)
          (drop_items-IsDropState (length (items_at (s.0).groups i)) i zero s h)

  -- Where the transaction is at most ten minutes old, has no valid date, or was not reported as absent,
  -- one round of the job changes nothing.
  pub drop_one_still :
      (find_transaction : String → TransactionLookup) (processed : List ProcessedTransaction)
      (w : World B P)
      → (is_recent env w.now p ≡ true)
        ⊎ ((p.date ≡ none) ⊎ (find_transaction p.hash ≢ TransactionLookup.absent))
      → (drop_one env find_transaction p processed w).1 ≡ w
  unfolding drop_one
  drop_one_still find_transaction processed w h = ground arith

  -- Otherwise the round is the loops over the batch's groups.
  drop_one-drop_groups :
      (find_transaction : String → TransactionLookup) (processed : List ProcessedTransaction)
      (w : World B P) (b : TransactionBatch) (date : ℕ)
      → is_recent env w.now p ≡ false
      → p.date ≡ some date
      → find_transaction p.hash ≡ TransactionLookup.absent
      → env.batches.get (transaction_batch_key p.address p.batch_id) w.batches ≡ some b
      → (drop_one env find_transaction p processed w).1
        ≡ (drop_groups env p (length b.groups) zero (b, processed, w)).2
  unfolding drop_one
  drop_one-drop_groups find_transaction processed w b date old valid absent found = ground arith

  after-IsDropState :
      (laws : IsCache env.batches) (find_transaction : String → TransactionLookup)
      (processed : List ProcessedTransaction) (w : World B P) (b : TransactionBatch)
      → env.batches.get (transaction_batch_key p.address p.batch_id) w.batches ≡ some b
      → IsDropState b b w
      → (b' : TransactionBatch) × IsDropState b b' ((drop_one env find_transaction p processed w).1)
  after-IsDropState laws find_transaction processed w b found start =
      elim (Bool-cases (is_recent env w.now p)) [
        | inl recent ↦ still (inl recent)
        | inr old ↦ elim (Option-cases p.date) [
          | inl invalid ↦ still (inr (inl invalid))
          | inr (date, valid) ↦ elim (lookup-cases (find_transaction p.hash)) [
            | inl absent ↦ (
              _,
              subst (IsDropState b _)
                  (sym (
                    drop_one-drop_groups find_transaction processed w b date old valid absent
                      found))
                  (drop_groups-IsDropState laws b (length b.groups) zero (b, processed, w) start),
            )
            | inr (inl present) ↦ still (inr (inr (λ e. cc)))
            | inr (inr failed) ↦ still (inr (inr (λ e. cc)))
          ]
        ]
      ]
    where
      still :
          (is_recent env w.now p ≡ true)
            ⊎ ((p.date ≡ none) ⊎ (find_transaction p.hash ≢ TransactionLookup.absent))
          → (b' : TransactionBatch) × IsDropState b b'
              ((drop_one env find_transaction p processed w).1)
      still h =
          (b, subst (IsDropState b b) (sym (drop_one_still find_transaction processed w h)) start)

  -- One round of the job keeps the batch that the pending transaction names in the cache: it is the
  -- one that was there, or it is marked as dropped, and in either case every transaction that was no
  -- longer pending is as it was.
  pub drop_one_settled :
      (laws : IsCache env.batches) (find_transaction : String → TransactionLookup)
      (processed : List ProcessedTransaction) (w : World B P) (b : TransactionBatch) (k l : ℕ)
      (item : TransactionBatchItem)
      → env.batches.get (transaction_batch_key p.address p.batch_id) w.batches ≡ some b
      → get_elem? (items_at b.groups k) l ≡ some item
      → item.status ≢ BatchTransactionStatus.pending
      → (b' : TransactionBatch) × (env.batches.get
            (transaction_batch_key p.address p.batch_id)
            ((drop_one env find_transaction p processed w).1).batches
          ≡ some b')
        × (get_elem? (items_at b'.groups k) l ≡ some item)
        × ((b' ≡ b) ⊎ (b'.status ≡ TransactionBatchStatus.dropped))
  drop_one_settled laws find_transaction processed w b k l item found here settled =
      let (b', state) =
        after-IsDropState laws find_transaction processed w b found
          (record { cached = found; keeps = λ k l item e _. e; marked = inl refl }) in
      (b', state.cached, state.keeps k l item here (not_pending item.status settled), state.marked)
