-- ===== src/Batch/Execute/Frame.antt =====
-- What submitting transactions leaves alone: the cached batches, and the batch's own status.
use api_elrond_com.Common.{
  zero, suc, ℕ, set, ℕ, map, ◌≡◌, refl, ◌∙◌, List, [], ◌∷◌, arith, inl, inr, Option-cases,
}
use api_elrond_com.Batch.{
  TransactionDetails, TransactionBatchItem, TransactionBatchGroup, TransactionBatch, get_address,
  items_at,
}
use api_elrond_com.Batch.World.{World, Env, pure}
use api_elrond_com.Batch.World.Ends.{Ends, Ends-weaken, bind-Ends}
use api_elrond_com.Batch.Execute.{
  create_transaction, execute_transaction, execute_items, register_results, start_transaction_group,
  with_items, settle, tx_of,
}

map-items_at-set :
    (gs : List TransactionBatchGroup) (i : ℕ) (items : List TransactionBatchItem)
    → map tx_of items ≡ map tx_of (items_at gs i)
    → (k : ℕ)
    → map tx_of (items_at (set gs i (record { items = items })) k) ≡ map tx_of (items_at gs k)
map-items_at-set [] i items h k = refl
map-items_at-set (g ∷ gs) zero items h zero = h
map-items_at-set (g ∷ gs) zero items h (suc k) = refl
map-items_at-set (g ∷ gs) (suc i) items h zero = refl
map-items_at-set (g ∷ gs) (suc i) items h (suc k) = map-items_at-set gs i items h k

module _ {B P : Type 0} (env : Env B P) where
  create_transaction-batches :
      (tx : TransactionDetails) (w : World B P)
      → ((create_transaction env tx w).1).batches ≡ w.batches
  unfolding create_transaction
  create_transaction-batches tx w = ground arith

  create_transaction-events :
      (tx : TransactionDetails) (w : World B P)
      → ((create_transaction env tx w).1).events ≡ w.events
  unfolding create_transaction
  create_transaction-events tx w = ground arith

  pub execute_transaction-batches :
      (item : TransactionBatchItem) (w : World B P)
      → ((execute_transaction env item w).1).batches ≡ w.batches
  unfolding execute_transaction
  execute_transaction-batches item w = create_transaction-batches item.transaction.tx w

  pub execute_transaction-events :
      (item : TransactionBatchItem) (w : World B P)
      → ((execute_transaction env item w).1).events ≡ w.events
  unfolding execute_transaction
  execute_transaction-events item w = create_transaction-events item.transaction.tx w

  pub execute_transaction-tx :
      (item : TransactionBatchItem) (w : World B P)
      → ((execute_transaction env item w).0).transaction.tx ≡ item.transaction.tx
  unfolding execute_transaction settle
  execute_transaction-tx item w = ground arith

  pub execute_items-batches :
      (items : List TransactionBatchItem) (w : World B P)
      → ((execute_items env items w).2).batches ≡ w.batches
  unfolding execute_items
  execute_items-batches [] w = refl
  execute_items-batches (item ∷ items) w = ground (
    arith,
    execute_transaction-batches item w,
    execute_items-batches items ((execute_transaction env item w).1),
  )

  -- Submission changes no transaction's details.
  pub execute_items-tx :
      (items : List TransactionBatchItem) (w : World B P)
      → map tx_of (execute_items env items w).0 ≡ map tx_of items
  unfolding execute_items
  execute_items-tx [] w = refl
  execute_items-tx (item ∷ items) w = ground (
    arith,
    execute_transaction-tx item w,
    execute_items-tx items ((execute_transaction env item w).1),
  )

  -- Starting a group keeps the batch's id and status and every transaction's details; the cached
  -- batches are as before, also where it throws.
  abbrev pub IsStarted : TransactionBatch → World B P → TransactionBatch → World B P → Type 0
  IsStarted b w b' w' =
      (b'.status ≡ b.status)
      × (b'.id ≡ b.id)
      × ((k : ℕ) → map tx_of (items_at b'.groups k) ≡ map tx_of (items_at b.groups k))
      × (w'.batches ≡ w.batches)

  register_results-batches :
      (b : TransactionBatch) (results : List TransactionBatchItem) (w : World B P)
      → Ends
          (λ _ w'. w'.batches ≡ w.batches)
          (λ w'. w'.batches ≡ w.batches)
          (register_results env b results w)
  unfolding register_results
  register_results-batches b results w = elim (Option-cases (get_address b)) [
    | inl missing ↦ rw missing refl
    | inr (address, found) ↦ rw found refl
  ]

  pub start_transaction_group-IsStarted :
      (b : TransactionBatch) (i : ℕ) (w : World B P)
      → Ends (IsStarted b w) (λ w'. w'.batches ≡ w.batches) (start_transaction_group env b i w)
  unfolding start_transaction_group
  start_transaction_group-IsStarted b i w =
      let run = execute_items env (items_at b.groups i) w in
      let b' = with_items b i (run.0) in
      bind-Ends (λ _ w'. w'.batches ≡ w.batches) (IsStarted b w) (λ w'. w'.batches ≡ w.batches)
        (register_results env b' (run.1)) (λ _. pure b') (run.2)
        (Ends-weaken (λ _ w'. w'.batches ≡ (run.2).batches) (λ _ w'. w'.batches ≡ w.batches)
          (λ w'. w'.batches ≡ (run.2).batches) (λ w'. w'.batches ≡ w.batches)
          (register_results env b' (run.1) (run.2))
          (λ _ w' h. h ∙ execute_items-batches (items_at b.groups i) w)
          (λ w' h. h ∙ execute_items-batches (items_at b.groups i) w)
          (register_results-batches b' (run.1) (run.2)))
        (λ _ w' h. (
          refl,
          refl,
          map-items_at-set b.groups i (run.0) (execute_items-tx (items_at b.groups i) w),
          h,
        ))
