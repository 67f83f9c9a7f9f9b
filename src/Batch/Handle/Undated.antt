-- ===== src/Batch/Handle/Undated.antt =====
-- What a registered transaction without a valid date does to the job for dropped transactions.
use api_elrond_com.Common.{
  ◌⊎◌, inl, inr, sym, subst, Option-cases, ◌∙◌, ℕ, zero, suc, ◌≡◌, refl, String, none, List, [],
  ◌∷◌, Memᴰ, option_eq, string_eq, length, arith,
}
use api_elrond_com.Batch.{items_at, TransactionBatch}
use api_elrond_com.Batch.World.{
  Outcome, ok, thrown, Failure, World, Env, M, ◌>>=◌, transaction_batch_key,
}
use api_elrond_com.Batch.Handle.{
  PendingTransaction, ProcessedTransaction, TransactionLookup, GroupBy, read_pending, drop_item,
  drop_items, drop_groups, drop_one, drop_all, events_of, emit_all, handle_dropped_transactions,
}

outcome-cases :
    {A : Type 0} (o : Outcome A) → ((a : A) × (o ≡ ok a)) ⊎ ((f : Failure) × (o ≡ thrown f))
outcome-cases (ok a) = inl (a, refl)
outcome-cases (thrown f) = inr (f, refl)

apart : {A : Type 0} {f : Failure} (a : A) → ok a ≡ thrown f → ⊥
apart a e = cc

module _ {B P : Type 0} (env : Env B P) where
  abbrev State : Type 0
  State = TransactionBatch × List ProcessedTransaction × World B P

  module _ (p : PendingTransaction) where
    drop_item-events : (i j : ℕ) (s : State) → ((drop_item env p i j s).2).events ≡ (s.2).events
    unfolding drop_item
    drop_item-events i j (b, processed, w) = ground arith

    drop_items-events :
        (n i j : ℕ) (s : State) → ((drop_items env p n i j s).2).events ≡ (s.2).events
    unfolding drop_items
    drop_items-events zero i j s = refl
    drop_items-events (suc n) i j s =
        drop_items-events n i (suc j) (drop_item env p i j s) ∙ drop_item-events i j s

    drop_groups-events : (n i : ℕ) (s : State) → ((drop_groups env p n i s).2).events ≡ (s.2).events
    unfolding drop_groups
    drop_groups-events zero i s = refl
    drop_groups-events (suc n) i s =
        let m = length (items_at (s.0).groups i) in
        drop_groups-events n (suc i) (drop_items env p m i zero s) ∙ drop_items-events m i zero s

  module _ (find_transaction : String → TransactionLookup) where
    drop_one-events :
        (p : PendingTransaction) (processed : List ProcessedTransaction) (w : World B P)
        → ((drop_one env find_transaction p processed w).1).events ≡ w.events
    unfolding drop_one
    drop_one-events p processed w =
        elim (Option-cases
          (env.batches.get (transaction_batch_key p.address p.batch_id) w.batches)) [
            | inl missing ↦ ground arith
            | inr (b, found) ↦
                ground (arith, drop_groups-events p (length b.groups) zero (b, processed, w))
          ]

    drop_one_undated :
        (p : PendingTransaction) (processed : List ProcessedTransaction) (w : World B P)
        → p.date ≡ none
        → (drop_one env find_transaction p processed w).0 ≡ thrown (record { message = none })
    unfolding drop_one
    drop_one_undated p processed w undated = ground arith

    drop_one_thrown :
        (p : PendingTransaction) (processed : List ProcessedTransaction) (w : World B P)
        (f : Failure)
        → (drop_one env find_transaction p processed w).0 ≡ thrown f
        → (drop_one env find_transaction p processed w).0 ≡ thrown (record { message = none })
    unfolding drop_one
    drop_one_thrown p processed w f e = ground arith

    -- The loop ends by an error, with the events as they were.
    abbrev Fails : {A : Type 0} → World B P → Outcome A × World B P → Type 0
    Fails w r = (r.0 ≡ thrown (record { message = none })) × ((r.1).events ≡ w.events)

    bind-Fails :
        {A C : Type 0} (m : M B P A) (k : A → M B P C) (w : World B P)
        → Fails w (m w)
        → Fails w ((m >>= k) w)
    bind-Fails {A} {C} m k w h = go (m w) h
      where
        go :
            (r : Outcome A × World B P)
            → Fails w r
            → Fails w (elim (r.0) as (λ _. Outcome C × World B P) [
              | ok a ↦ k a (r.1)
              | thrown f ↦ (thrown f, r.1)
            ])
        go (ok a, v) (failed, kept) = absurd (apart a failed)
        go (thrown f, v) (failed, kept) = (cc failed, kept)

    bind_ok-Fails :
        {A C : Type 0} (m : M B P A) (k : A → M B P C) (w : World B P) (a : A)
        → (m w).0 ≡ ok a
        → Fails w (k a ((m w).1))
        → Fails w ((m >>= k) w)
    bind_ok-Fails {A} {C} m k w a e h = go (m w) e h
      where
        go :
            (r : Outcome A × World B P)
            → r.0 ≡ ok a
            → Fails w (k a (r.1))
            → Fails w (elim (r.0) as (λ _. Outcome C × World B P) [
              | ok a ↦ k a (r.1)
              | thrown f ↦ (thrown f, r.1)
            ])
        go (ok b, v) e h = let same : a ≡ b = cc e in subst (λ x. Fails w (k x v)) same h
        go (thrown f, v) e h = absurd (apart a (sym e))

    drop_all-Fails :
        (p : PendingTransaction) (ps : List PendingTransaction)
        (processed : List ProcessedTransaction) (w : World B P)
        → Memᴰ p ps
        → p.date ≡ none
        → Fails w (drop_all env find_transaction ps processed w)
    unfolding drop_all
    drop_all-Fails p [] processed w among undated = elim among [ ]
    drop_all-Fails p (q ∷ ps) processed w among undated =
        let first = drop_one env find_transaction q processed w in
        elim (outcome-cases (first.0)) [
          | inr (f, e) ↦
              bind-Fails (drop_one env find_transaction q processed)
                (drop_all env find_transaction ps) w
                (drop_one_thrown q processed w f e, drop_one-events q processed w)
          | inl (more, e) ↦ elim among [
            | Memᴰ.head same ↦ absurd (
                apart more (
                  sym e
                  ∙ drop_one_undated q processed w
                      (subst (λ (x : PendingTransaction). x.date ≡ none) same undated)))
            | Memᴰ.tail behind ↦
                let (failed, kept) = drop_all-Fails p ps more (first.1) behind undated in
                bind_ok-Fails (drop_one env find_transaction q processed)
                  (drop_all env find_transaction ps) w more e
                  (failed, kept ∙ drop_one-events q processed w)
          ]
        ]

    -- Where one of the transactions that are registered has no valid date, the job for the dropped
    -- transactions ends by an error and announces no batch, whichever transactions it had dropped by then.
    pub handle_dropped_transactions_undated :
        (group_by : GroupBy) (w : World B P) (p : PendingTransaction)
        → Memᴰ p (read_pending env (env.pending.keys "pendingtransaction:" w.pending) w.pending [])
        → p.date ≡ none
        → let r = handle_dropped_transactions env group_by find_transaction w in
          (r.0 ≡ thrown (record { message = none })) × ((r.1).events ≡ w.events)
    unfolding handle_dropped_transactions
    handle_dropped_transactions_undated group_by w p among undated =
        let registered =
          read_pending env (env.pending.keys "pendingtransaction:" w.pending) w.pending [] in
        bind-Fails (drop_all env find_transaction registered [])
          (λ processed. emit_all env (events_of (group_by processed))) w
          (drop_all-Fails p registered [] w among undated)
