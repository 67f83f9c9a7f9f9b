-- ===== src/Batch/Execute/Prefix.antt =====
-- How far a group's submission goes, and what it makes of the gateway's answers.
use api_elrond_com.Common.{
  ◌⊎◌, ℕ, ◌≡◌, refl, ap, String, Bool, suc, true, false, none, some, List, [], ◌∷◌, ◌++◌, any, drop,
  take, length, Bool-cases, arith, inl, inr,
}
use api_elrond_com.Batch.{TransactionBatchItem, is_invalid}
use api_elrond_com.Batch.World.{World, Env, refused, quiet}
use api_elrond_com.Batch.Execute.Submission.{
  AreExecuted, nothing, one_more, execute_transaction-IsExecuted,
}
use api_elrond_com.Batch.Execute.{execute_transaction, execute_items}

-- At most the last of the results is invalid.
abbrev pub StopsAtInvalid : List TransactionBatchItem → Type 0
StopsAtInvalid [] = Unit
StopsAtInvalid (item ∷ []) = Unit
StopsAtInvalid (item ∷ next ∷ rest) =
    (is_invalid item.status ≡ false) × StopsAtInvalid (next ∷ rest)

StopsAtInvalid-cons :
    (item : TransactionBatchItem) (rest : List TransactionBatchItem)
    → is_invalid item.status ≡ false
    → StopsAtInvalid rest
    → StopsAtInvalid (item ∷ rest)
StopsAtInvalid-cons item [] h s = tt
StopsAtInvalid-cons item (next ∷ rest) h s = (h, s)

abbrev pub any_invalid : List TransactionBatchItem → Bool
any_invalid items = any (λ item. is_invalid item.status) items

module _ {B P : Type 0} (env : Env B P) where
  -- Submission goes through the items in order up to the first that ends invalid: those of the items
  -- that are reached are submitted one after the other, each as the gateway or a plugin answers, with just
  -- those sent to the gateway of which both addresses decode and that the plugins leave to it; the group
  -- afterwards is the results and then the items that were not reached, unchanged; no result but the last
  -- is invalid, and where none is, every item was reached.
  pub execute_items_prefix :
      (items : List TransactionBatchItem) (w : World B P)
      → let run = execute_items env items w in
        AreExecuted env w.submitted (take (length (run.1)) items) (run.1) ((run.2).submitted)
        × (run.0 ≡ run.1 ++ drop (length (run.1)) items)
        × StopsAtInvalid (run.1)
        × ((any_invalid (run.1) ≡ true) ⊎ (length (run.1) ≡ length items))
  unfolding execute_items
  execute_items_prefix [] w = (nothing, refl, tt, inr refl)
  execute_items_prefix (item ∷ items) w =
      let first = execute_transaction-IsExecuted env item w in
      let done = execute_transaction env item w in
      let (chain, parts, stops, whole) = execute_items_prefix items (done.1) in
      elim (Bool-cases (is_invalid ((done.0).status))) [
        | inl bad ↦ rw bad (one_more first nothing, refl, tt, inl (rw bad))
        | inr good ↦ rw good (
          one_more first chain,
          ap (◌∷◌ (done.0)) parts,
          StopsAtInvalid-cons (done.0) _ good stops,
          elim whole [ inl bad ↦ inl (rw good bad) | inr all ↦ inr (ap suc all) ],
        )
      ]

  -- Where both addresses decode and no plugin steps in, a refusal by the gateway leaves the item
  -- with the status and error that it had, and without a hash: it is not marked invalid.
  pub execute_transaction_refused :
      (item : TransactionBatchItem) (w : World B P) (receiver_shard sender_shard : ℕ)
      (message : String)
      → env.shard_of item.transaction.tx.receiver ≡ some receiver_shard
      → env.shard_of item.transaction.tx.sender ≡ some sender_shard
      → env.plugin item.transaction.tx ≡ quiet
      → env.gateway w.submitted item.transaction.tx ≡ refused message
      → let after = (execute_transaction env item w).0 in
        (after.status ≡ item.status) × (after.error ≡ item.error) × (after.transaction.hash ≡ none)
  unfolding execute_transaction
  execute_transaction_refused item w r s message hr hs hp hg = ground arith
