-- ===== src/Batch/Start/Storage.antt =====
-- What starting a batch stores, and under which key.
use api_elrond_com.Common.{
  zero, ◌≡◌, ◌≢◌, refl, sym, ◌∙◌, ap, String, Bool, true, false, Option, none, some, List, [], ◌∷◌,
  map, any, get_elem?, Bool-cases, Option-cases, List-cases, inl, inr,
}
use api_elrond_com.Batch.{
  TransactionBatchStatus, TransactionDetails, TransactionBatchItem, TransactionBatchGroup,
  TransactionBatch, is_invalid, items_at, get_address,
}
use api_elrond_com.Batch.World.{pure, ◌>>=◌, of_option, World, Env, transaction_batch_key}
use api_elrond_com.Batch.World.Ends.{Ends, Ends-weaken, bind-Ends}
use api_elrond_com.Batch.Execute.{start_transaction_group, tx_of}
use api_elrond_com.Batch.Execute.Frame.{IsStarted, start_transaction_group-IsStarted}
use api_elrond_com.Batch.Start.{
  with_hash, hash_items, hash_groups, mark_pending, pending_item, prepared, finish_start,
  start_transaction_batch,
}

-- The transactions of the first group, which give the batch's address.
abbrev pub lead : List TransactionBatchGroup → List TransactionDetails
lead gs = map tx_of (items_at gs zero)

abbrev pub sender_of : List TransactionDetails → Option String
sender_of [] = none
sender_of (tx ∷ txs) = some tx.sender

sender_of-map :
    (items : List TransactionBatchItem)
    → (elim (get_elem? items zero) [ none ↦ none | some item ↦ some item.transaction.tx.sender ])
      ≡ sender_of (map tx_of items)
sender_of-map [] = refl
sender_of-map (item ∷ items) = refl

pub get_address-lead : (b : TransactionBatch) → get_address b ≡ sender_of (lead b.groups)
unfolding get_address
get_address-lead b = sender_of-map (items_at b.groups zero)

abbrev pub has_invalid : TransactionBatch → Bool
has_invalid b = any (λ item. is_invalid item.status) (items_at b.groups zero)

lead-mark_pending : (gs : List TransactionBatchGroup) → lead (map mark_pending gs) ≡ lead gs
lead-mark_pending [] = refl
lead-mark_pending (g ∷ gs) = go g.items
  where
    go : (items : List TransactionBatchItem) → map tx_of (map pending_item items) ≡ map tx_of items
    go [] = refl
    go (item ∷ items) = cc (go items)

module _ {B P : Type 0} (env : Env B P) where
  -- How a start that returns may end: the batch is stored under its own address and id, or it is
  -- invalid and the cache is as before.
  pub data IsStartResult (txs : List TransactionDetails) (id : String) (w : World B P)
      (b : TransactionBatch) (w' : World B P) : Type 0 where
    stored :
        (address : String)
        → b.status ≡ TransactionBatchStatus.pending
        → has_invalid b ≡ false
        → sender_of txs ≡ some address
        → w'.batches ≡ env.batches.set (transaction_batch_key address id) b w.batches
        → IsStartResult txs id w b w'
    aborted :
        b.status ≡ TransactionBatchStatus.invalid
        → has_invalid b ≡ true
        → w'.batches ≡ w.batches
        → IsStartResult txs id w b w'

  hash_items-tx :
      (items : List TransactionBatchItem) (w : World B P)
      → Ends
          (λ items' w'. (map tx_of items' ≡ map tx_of items) × (w' ≡ w))
          (λ w'. w' ≡ w)
          (hash_items env items w)
  unfolding hash_items
  hash_items-tx [] w = (refl, refl)
  hash_items-tx (item ∷ items) w = elim (Option-cases (env.compute_hash item.transaction.tx)) [
    | inl missing ↦ rw (missing, of_option) refl
    | inr (hash, found) ↦
        rw (found, of_option)
          (bind-Ends (λ items' w'. (map tx_of items' ≡ map tx_of items) × (w' ≡ w))
            (λ items' w'. (map tx_of items' ≡ map tx_of (item ∷ items)) × (w' ≡ w)) (λ w'. w' ≡ w)
            (hash_items env items) (λ rest. pure (with_hash hash item ∷ rest)) w
            (hash_items-tx items w)
            (λ items' w' (same, kept). (ap (◌∷◌ item.transaction.tx) same, kept)))
  ]

  hash_groups-lead :
      (gs : List TransactionBatchGroup) (w : World B P)
      → Ends (λ gs' w'. (lead gs' ≡ lead gs) × (w' ≡ w)) (λ w'. w' ≡ w) (hash_groups env gs w)
  unfolding hash_groups
  hash_groups-lead [] w = (refl, refl)
  hash_groups-lead (g ∷ gs) w =
      bind-Ends (λ items' w'. (map tx_of items' ≡ map tx_of g.items) × (w' ≡ w))
        (λ gs' w'. (lead gs' ≡ lead (g ∷ gs)) × (w' ≡ w)) (λ w'. w' ≡ w) (hash_items env g.items)
        (λ items. hash_groups env gs >>= λ rest. pure (record { items = items } ∷ rest)) w
        (hash_items-tx g.items w)
        (λ items' w' (same, kept).
          bind-Ends (λ gs' w''. w'' ≡ w) (λ gs' w'. (lead gs' ≡ lead (g ∷ gs)) × (w' ≡ w))
            (λ w'. w' ≡ w) (hash_groups env gs) (λ rest. pure (record { items = items' } ∷ rest)) w'
            (rw kept (
              Ends-weaken (λ gs' w'. (lead gs' ≡ lead gs) × (w' ≡ w)) (λ gs' w''. w'' ≡ w)
                (λ w'. w' ≡ w) (λ w'. w' ≡ w) (hash_groups env gs w) (λ _ _ h. h.1) (λ _ h. h)
                (hash_groups-lead gs w)))
            (λ rest w'' kept'. (same, kept')))

  finish_start-IsStartResult :
      (txs : List TransactionDetails) (id : String) (w₀ w : World B P) (b : TransactionBatch)
      → b.id ≡ id
      → b.status ≡ TransactionBatchStatus.pending
      → lead b.groups ≡ txs
      → w.batches ≡ w₀.batches
      → Ends (IsStartResult txs id w₀) (λ w'. w'.batches ≡ w₀.batches) (finish_start env b w)
  unfolding finish_start
  finish_start-IsStartResult txs id w₀ w b same_id s same_lead kept =
      elim (Bool-cases (has_invalid b)) [
        | inl bad ↦ rw bad (aborted refl bad kept)
        | inr good ↦ rw good (elim (Option-cases (get_address b)) [
          | inl missing ↦ rw (missing, of_option) kept
          | inr (address, found) ↦
              rw (found, of_option)
                (stored address s good
                  (ap sender_of (sym same_lead) ∙ sym (get_address-lead b) ∙ found)
                  (rw (same_id, kept) refl))
        ])
      ]

  start_first-IsStartResult :
      (batch : TransactionBatch) (source_ip : Option String) (txs : List TransactionDetails)
      (groups : List TransactionBatchGroup) (w₀ w : World B P)
      → lead groups ≡ txs
      → w.batches ≡ w₀.batches
      → Ends
          (IsStartResult txs batch.id w₀)
          (λ w'. w'.batches ≡ w₀.batches)
          ((start_transaction_group env (prepared batch source_ip groups) zero >>= finish_start env)
            w)
  start_first-IsStartResult batch source_ip txs groups w₀ w same kept =
      let b = prepared batch source_ip groups in
      bind-Ends (IsStarted env b w) (IsStartResult txs batch.id w₀) (λ w'. w'.batches ≡ w₀.batches)
        (start_transaction_group env b zero) (finish_start env) w
        (Ends-weaken (IsStarted env b w) (IsStarted env b w) (λ v. v.batches ≡ w.batches)
          (λ v. v.batches ≡ w₀.batches) (start_transaction_group env b zero w) (λ _ _ h. h)
          (λ _ h. h ∙ kept) (start_transaction_group-IsStarted env b zero w))
        (λ b' v (s, same_id, all_txs, kept').
          finish_start-IsStartResult txs batch.id w₀ v b' same_id s
            (all_txs zero ∙ lead-mark_pending groups ∙ same) (kept' ∙ kept))

  -- A start of a batch with groups that returns either stores the batch under the sender of its
  -- first transaction and its id, pending and with no invalid transaction in the first group, or
  -- returns it invalid, with an invalid transaction there, and stores no batch. A start that throws
  -- stores no batch.
  pub start_transaction_batch-IsStartResult :
      (batch : TransactionBatch) (source_ip : Option String) (w : World B P)
      → batch.groups ≢ []
      → Ends
          (IsStartResult (lead batch.groups) batch.id w)
          (λ w'. w'.batches ≡ w.batches)
          (start_transaction_batch env batch source_ip w)
  unfolding start_transaction_batch
  start_transaction_batch-IsStartResult batch source_ip w full = elim (List-cases batch.groups) [
    | inl empty ↦ absurd (full empty)
    | inr (g, gs, e) ↦
        rw (e, start_transaction_batch)
          (let txs = lead (g ∷ gs) in
            bind-Ends (λ gs' w'. (lead gs' ≡ txs) × (w' ≡ w)) (IsStartResult txs batch.id w)
              (λ w'. w'.batches ≡ w.batches) (hash_groups env (g ∷ gs))
              (λ groups.
                start_transaction_group env (prepared batch source_ip groups) zero
                >>= finish_start env)
              w
              (Ends-weaken (λ gs' w'. (lead gs' ≡ lead (g ∷ gs)) × (w' ≡ w))
                (λ gs' w'. (lead gs' ≡ lead (g ∷ gs)) × (w' ≡ w)) (λ w'. w' ≡ w)
                (λ w'. w'.batches ≡ w.batches) (hash_groups env (g ∷ gs) w) (λ _ _ h. h)
                (λ _ h. ap (λ (v : World B P). v.batches) h) (hash_groups-lead (g ∷ gs) w))
              (λ groups w' (same, kept).
                start_first-IsStartResult batch source_ip txs groups w w' same
                  (ap (λ (v : World B P). v.batches) kept)))
  ]
