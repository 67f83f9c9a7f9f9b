-- ===== src/Batch/Start/Registered.antt =====
-- What the endpoint `POST /batch` leaves alone in the remote cache: the cached batches, and the pending
-- transactions that a start of a group registers there.
use api_elrond_com.Common.{
  ◌≡◌, ◌≢◌, refl, sym, ◌∙◌, String, any, filter, zero, ℕ, ◌==◌, string_eq, eq_iff, Option, List, [],
  ◌∷◌, to_text, ap, List-cases, Bool-cases, Option-cases, arith, inl, inr,
}
use api_elrond_com.Batch.{
  TransactionDetails, TransactionBatchItem, TransactionBatchGroup, TransactionBatch, get_address,
  items_at, is_invalid, is_pending,
}
use api_elrond_com.Batch.World.{
  Outcome, ok, thrown, World, Env, M, IsCache, pure, of_option, ◌>>=◌, transaction_batch_key,
  pending_transaction_key,
}
use api_elrond_com.Batch.Execute.{
  create_transaction, execute_transaction, execute_items, register, register_results,
  start_transaction_group, with_items, hashes_of, pending_value,
}
use api_elrond_com.Batch.Start.{
  TransactionBatchSimplified, answer, convert_to_transaction_batch, with_hash,
  convert_from_transaction_batch, get_transaction_batch, source_ip_of, start_transaction_batch,
  post_batch, hash_items, hash_groups, finish_start, prepared,
}
use api_elrond_com.Batch.Start.Isolation.{has_stranger, post_batch-KeepsOthers}

module _ {B P : Type 0} (env : Env B P) where
  create_transaction-pending :
      (tx : TransactionDetails) (w : World B P)
      → ((create_transaction env tx w).1).pending ≡ w.pending
  unfolding create_transaction
  create_transaction-pending tx w = ground arith

  execute_items-pending :
      (items : List TransactionBatchItem) (w : World B P)
      → ((execute_items env items w).2).pending ≡ w.pending
  unfolding execute_items execute_transaction
  execute_items-pending [] w = refl
  execute_items-pending (item ∷ items) w = ground (
    arith,
    create_transaction-pending item.transaction.tx w,
    execute_items-pending items ((execute_transaction env item w).1),
  )

  module _ (laws : IsCache env.pending) (j : String)
      (other : (hash : String) → j ≢ pending_transaction_key hash) where
    abbrev Keeps : World B P → World B P → Type 0
    Keeps w w' = env.pending.get j w'.pending ≡ env.pending.get j w.pending

    -- However it ends, the computation keeps what the pending transactions have under the key.
    abbrev Frame : {A : Type 0} → M B P A → Type 0
    Frame m = (w : World B P) → Keeps w ((m w).1)

    bind-Frame :
        {A C : Type 0} (m : M B P A) (k : A → M B P C)
        → Frame m
        → ((a : A) → Frame (k a))
        → Frame (m >>= k)
    bind-Frame {A} {C} m k first next w = go (m w) (first w)
      where
        go :
            (r : Outcome A × World B P)
            → Keeps w (r.1)
            → Keeps w (
                (elim (r.0) as (λ _. Outcome C × World B P) [
                  | ok a ↦ k a (r.1)
                  | thrown f ↦ (thrown f, r.1)
                ]).1)
        go (ok a, v) kept = next a v ∙ kept
        go (thrown f, v) kept = kept

    register-get :
        (value : String) (hashes : List (Option String)) (s : P)
        → env.pending.get j (register env value hashes s) ≡ env.pending.get j s
    unfolding register
    register-get value [] s = refl
    register-get value (hash ∷ hashes) s =
        let key = pending_transaction_key (to_text hash) in
        register-get value hashes (env.pending.set key value s) ∙ elim (Bool-cases (key == j)) [
          | inl same ↦ absurd (other (to_text hash) (sym ((eq_iff key j).0 same)))
          | inr differ ↦ rw (laws.get-set j key value s, differ) refl
        ]

    register_results-Frame :
        (b : TransactionBatch) (results : List TransactionBatchItem)
        → Frame (register_results env b results)
    unfolding register_results
    register_results-Frame b results w = elim (Option-cases (get_address b)) [
      | inl missing ↦ rw missing refl
      | inr (address, found) ↦ rw found (
          register-get (pending_value env b.id address w.now)
            (hashes_of (filter (λ item. is_pending item.status) results)) w.pending)
    ]

    start_transaction_group-Frame :
        (b : TransactionBatch) (i : ℕ) → Frame (start_transaction_group env b i)
    unfolding start_transaction_group
    start_transaction_group-Frame b i w =
        let run = execute_items env (items_at b.groups i) w in
        let b' = with_items b i (run.0) in
        bind-Frame (register_results env b' (run.1)) (λ _. pure b')
          (register_results-Frame b' (run.1)) (λ _ v. refl) (run.2)
        ∙ ap (env.pending.get j) (execute_items-pending (items_at b.groups i) w)

    hash_items-Frame : (items : List TransactionBatchItem) → Frame (hash_items env items)
    unfolding hash_items
    hash_items-Frame [] w = refl
    hash_items-Frame (item ∷ items) w = elim (Option-cases (env.compute_hash item.transaction.tx)) [
      | inl missing ↦ rw (missing, of_option) refl
      | inr (hash, found) ↦
          rw (found, of_option)
            (bind-Frame (hash_items env items) (λ rest. pure (with_hash hash item ∷ rest))
              (hash_items-Frame items) (λ rest v. refl) w)
    ]

    hash_groups-Frame : (gs : List TransactionBatchGroup) → Frame (hash_groups env gs)
    unfolding hash_groups
    hash_groups-Frame [] w = refl
    hash_groups-Frame (g ∷ gs) w =
        bind-Frame (hash_items env g.items)
          (λ items. hash_groups env gs >>= λ rest. pure (record { items = items } ∷ rest))
          (hash_items-Frame g.items)
          (λ items.
            bind-Frame (hash_groups env gs) (λ rest. pure (record { items = items } ∷ rest))
              (hash_groups-Frame gs) (λ rest v. refl))
          w

    finish_start-Frame : (b : TransactionBatch) → Frame (finish_start env b)
    unfolding finish_start
    finish_start-Frame b w =
        elim (Bool-cases (any (λ item. is_invalid item.status) (items_at b.groups zero))) [
          | inl bad ↦ rw bad refl
          | inr good ↦ rw good (elim (Option-cases (get_address b)) [
            | inl missing ↦ rw (missing, of_option) refl
            | inr (address, found) ↦ rw (found, of_option) refl
          ])
        ]

    started-Frame :
        (b : TransactionBatch) (source_ip : Option String) (gs : List TransactionBatchGroup)
        → Frame (
            hash_groups env gs >>= λ groups.
            start_transaction_group env (prepared b source_ip groups) zero >>= finish_start env)
    started-Frame b source_ip gs =
        bind-Frame (hash_groups env gs)
          (λ groups.
            start_transaction_group env (prepared b source_ip groups) zero >>= finish_start env)
          (hash_groups-Frame gs)
          (λ groups.
            bind-Frame (start_transaction_group env (prepared b source_ip groups) zero)
              (finish_start env) (start_transaction_group-Frame (prepared b source_ip groups) zero)
              finish_start-Frame)

    start_transaction_batch-Frame :
        (b : TransactionBatch) (source_ip : Option String)
        → Frame (start_transaction_batch env b source_ip)
    unfolding start_transaction_batch
    start_transaction_batch-Frame b source_ip w = elim (List-cases b.groups) [
      | inl empty ↦ rw (empty, start_transaction_batch) refl
      | inr (g, gs, e) ↦ rw (e, start_transaction_batch) (started-Frame b source_ip (g ∷ gs) w)
    ]

    post_batch-Frame :
        (address : String) (batch : TransactionBatchSimplified) (forwarded real : Option String)
        → Frame (post_batch env address batch forwarded real)
    unfolding post_batch
    post_batch-Frame address batch forwarded real w =
        let converted = convert_to_transaction_batch batch in
        elim (Option-cases (get_transaction_batch env address batch.id w)) [
          | inr (existing, found) ↦ rw (found, post_batch) refl
          | inl free ↦
              rw (free, post_batch)
                (elim (Bool-cases (has_stranger address converted.groups)) [
                  | inl stranger ↦ rw stranger refl
                  | inr own_all ↦ rw own_all (
                      bind-Frame
                        (start_transaction_batch env converted (source_ip_of forwarded real))
                        (λ started. pure (answer (convert_from_transaction_batch started)))
                        (start_transaction_batch-Frame converted (source_ip_of forwarded real))
                        (λ started v. refl) w)
                ])
        ]

  -- A post leaves alone every batch that the cache holds under any other key than that of the caller's
  -- address and the batch's id, and of the pending transactions what is under a key that is that of no
  -- hash.
  pub post_batch_others :
      (laws : IsCache env.batches) (pending_laws : IsCache env.pending) (address : String)
      (batch : TransactionBatchSimplified) (forwarded real : Option String) (w : World B P)
      (k j : String)
      → k ≢ transaction_batch_key address batch.id
      → ((hash : String) → j ≢ pending_transaction_key hash)
      → let w' = (post_batch env address batch forwarded real w).1 in
        (env.batches.get k w'.batches ≡ env.batches.get k w.batches)
        × (env.pending.get j w'.pending ≡ env.pending.get j w.pending)
  post_batch_others laws pending_laws address batch forwarded real w k j not_own not_pending = (
    post_batch-KeepsOthers env laws address batch forwarded real w k not_own,
    post_batch-Frame pending_laws j not_pending address batch forwarded real w,
  )
