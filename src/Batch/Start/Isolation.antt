-- ===== src/Batch/Start/Isolation.antt =====
-- What the endpoint `POST /batch` does to the batches that the cache holds.
use api_elrond_com.Common.{
  ◌≡◌, ◌≢◌, refl, sym, ◌∙◌, ap, String, Bool, false, not, ◌==◌, string_eq, eq_iff, Option, some,
  List, [], ◌∷◌, any, Bool-cases, Option-cases, List-cases, arith, inl, inr,
}
use api_elrond_com.Batch.{TransactionBatchGroup, TransactionBatchItem, TransactionBatch}
use api_elrond_com.Batch.World.{pure, World, Env, IsCache, transaction_batch_key}
use api_elrond_com.Batch.World.Ends.{Ends, Ends-weaken, Ends-world, bind-Ends}
use api_elrond_com.Batch.Start.{
  TransactionBatchSimplified, all_items, answer, convert_to_transaction_batch,
  convert_from_transaction_batch, get_transaction_batch, source_ip_of, start_transaction_batch,
  post_batch,
}
use api_elrond_com.Batch.Start.Storage.{
  lead, sender_of, IsStartResult, stored, aborted, start_transaction_batch-IsStartResult,
}

-- Some transaction of the batch has another sender.
abbrev pub has_stranger : String → List TransactionBatchGroup → Bool
has_stranger address gs = any (λ item. not (item.transaction.tx.sender == address)) (all_items gs)

sender_of-lead :
    (address : String) (gs : List TransactionBatchGroup) {a : String}
    → has_stranger address gs ≡ false
    → sender_of (lead gs) ≡ some a
    → a ≡ address
sender_of-lead address [] h e = cc
sender_of-lead address (g ∷ gs) h e = go g.items gs h e
  where
    go :
        (items : List TransactionBatchItem) (gs : List TransactionBatchGroup) {a : String}
        → has_stranger address (record { items = items } ∷ gs) ≡ false
        → sender_of (lead (record { items = items } ∷ gs)) ≡ some a
        → a ≡ address
    go [] gs h e = cc
    go (item ∷ items) gs h e = ground (arith, eq_iff item.transaction.tx.sender address)

differ_absurd : (own k : String) → own ≡ k → (own == k) ≡ false → ⊥
differ_absurd own k e h = ground (arith, eq_iff own k)

nonempty : (g : TransactionBatchGroup) (gs : List TransactionBatchGroup) → g ∷ gs ≢ []
nonempty g gs e = cc

module _ {B P : Type 0} (env : Env B P) (laws : IsCache env.batches) where
  -- The cache keeps what it holds under other keys than this one.
  abbrev pub KeepsOthers : String → World B P → World B P → Type 0
  KeepsOthers own w w' =
      (k : String) → k ≢ own → env.batches.get k w'.batches ≡ env.batches.get k w.batches

  set-KeepsOthers :
      (own : String) (b : TransactionBatch) (w w' : World B P)
      → w'.batches ≡ env.batches.set own b w.batches
      → KeepsOthers own w w'
  set-KeepsOthers own b w w' e k differ =
      rw (e, laws.get-set k own b w.batches) (ground (arith, eq_iff own k))

  started-KeepsOthers :
      (batch : TransactionBatch) (address : String) (w : World B P) (b : TransactionBatch)
      (w' : World B P)
      → has_stranger address batch.groups ≡ false
      → IsStartResult env (lead batch.groups) batch.id w b w'
      → KeepsOthers (transaction_batch_key address batch.id) w w'
  started-KeepsOthers batch address w b w' own (stored a _ _ found e) =
      let mine = sender_of-lead address batch.groups own found in
      set-KeepsOthers (transaction_batch_key address batch.id) b w w' (rw (← mine) e)
  started-KeepsOthers batch address w b w' own (aborted _ _ e) = λ k _. ap (env.batches.get k) e

  start-KeepsOthers :
      (batch : TransactionBatch) (source_ip : Option String) (address : String) (w : World B P)
      → has_stranger address batch.groups ≡ false
      → Ends
          (λ _ w'. KeepsOthers (transaction_batch_key address batch.id) w w')
          (KeepsOthers (transaction_batch_key address batch.id) w)
          (start_transaction_batch env batch source_ip w)
  unfolding start_transaction_batch
  start-KeepsOthers batch source_ip address w own = elim (List-cases batch.groups) [
    | inl empty ↦ rw (empty, start_transaction_batch) (λ k _. refl)
    | inr (g, gs, e) ↦
        Ends-weaken (IsStartResult env (lead batch.groups) batch.id w)
          (λ _ w'. KeepsOthers (transaction_batch_key address batch.id) w w')
          (λ w'. w'.batches ≡ w.batches) (KeepsOthers (transaction_batch_key address batch.id) w)
          (start_transaction_batch env batch source_ip w)
          (λ b w' result. started-KeepsOthers batch address w b w' own result)
          (λ w' same k _. ap (env.batches.get k) same)
          (start_transaction_batch-IsStartResult env batch source_ip w
            (λ none_. nonempty g gs (sym e ∙ none_)))
  ]

  pub post_batch-KeepsOthers :
      (address : String) (batch : TransactionBatchSimplified) (forwarded real : Option String)
      (w : World B P)
      → KeepsOthers
          (transaction_batch_key address batch.id)
          w
          ((post_batch env address batch forwarded real w).1)
  unfolding post_batch
  post_batch-KeepsOthers address batch forwarded real w =
      let converted = convert_to_transaction_batch batch in
      let own = transaction_batch_key address batch.id in
      elim (Option-cases (get_transaction_batch env address batch.id w)) [
        | inr (existing, found) ↦ rw (found, post_batch) (λ k _. refl)
        | inl free ↦
            rw (free, post_batch)
              (elim (Bool-cases (has_stranger address converted.groups)) [
                | inl stranger ↦ rw stranger (λ k _. refl)
                | inr own_all ↦ rw own_all (
                    Ends-world (KeepsOthers own w) _ (
                      bind-Ends (λ _ w'. KeepsOthers own w w') (λ _ w'. KeepsOthers own w w')
                        (KeepsOthers own w)
                        (start_transaction_batch env converted (source_ip_of forwarded real))
                        (λ started. pure (answer (convert_from_transaction_batch started))) w
                        (start-KeepsOthers converted (source_ip_of forwarded real) address w
                          own_all)
                        (λ _ _ h. h)))
              ])
      ]

  post_batch_duplicate :
      (address : String) (batch : TransactionBatchSimplified) (forwarded real : Option String)
      (w : World B P) (existing : TransactionBatch)
      → env.batches.get (transaction_batch_key address batch.id) w.batches ≡ some existing
      → (post_batch env address batch forwarded real w).1 ≡ w
  unfolding post_batch
  post_batch_duplicate address batch forwarded real w existing found = rw (found, post_batch)

  -- A post overwrites no batch that the cache holds, under whatever key.
  pub post_batch_no_overwrite :
      (address : String) (batch : TransactionBatchSimplified) (forwarded real : Option String)
      (w : World B P) (k : String) (b : TransactionBatch)
      → env.batches.get k w.batches ≡ some b
      → env.batches.get k ((post_batch env address batch forwarded real w).1).batches ≡ some b
  post_batch_no_overwrite address batch forwarded real w k b found =
      let own = transaction_batch_key address batch.id in
      elim (Bool-cases (own == k)) [
        | inl same ↦
            let e = (eq_iff own k).0 same in
            rw (post_batch_duplicate address batch forwarded real w b (rw e found)) found
        | inr differ ↦
            post_batch-KeepsOthers address batch forwarded real w k
              (λ e. differ_absurd own k (sym e) differ)
            ∙ found
      ]
