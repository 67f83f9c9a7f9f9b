-- ===== src/Batch/Handle/Registry.antt =====
-- What the processor reads back from the registry of pending transactions.
use text.Mathlib.TextLemmas.{nil-append, append_assoc, cons-append}
use api_elrond_com.Common.{
  ◌∙◌, ℕ, ◌≡◌, refl, ap, String, none, some, List, [], ◌∷◌, get_elem?, split, split-append,
  split_last, replace, replace-append, Lacks, ◌+text◌,
}
use api_elrond_com.Batch.World.{Env, pending_transaction_key}
use api_elrond_com.Batch.Execute.{pending_value}
use api_elrond_com.Batch.Handle.{parse_pending}

abbrev first_or_empty : List String → String
first_or_empty parts = elim (get_elem? parts 0) [ none ↦ "" | some id ↦ id ]

replace-key :
    (hash : String) → replace (pending_transaction_key hash) "pendingtransaction:" "" ≡ hash
replace-key hash = replace-append "p" "endingtransaction:" hash "" ∙ nil-append hash

semicolon-append : (s : String) → ";" +text s ≡ String.◌∷◌ ";" s
semicolon-append s = cons-append ";" "" s ∙ ap (String.◌∷◌ ";") (nil-append s)

-- The first part in front of a semicolon.
split-semicolon :
    (s rest : String) → Lacks b';' s → split b';' (s +text (";" +text rest)) ≡ s ∷ split b';' rest
split-semicolon s rest h = rw (semicolon-append rest) (split-append b';' s ";" rest h refl)

module _ {B P : Type 0} (env : Env B P) where
  split-pending_value :
      (id address : String) (now : ℕ)
      → Lacks b';' id
      → Lacks b';' address
      → Lacks b';' (env.iso now)
      → split b';' (pending_value env id address now) ≡ id ∷ address ∷ env.iso now ∷ []
  split-pending_value id address now hi ha hn = simp append_assoc (
      split-semicolon id (address +text (";" +text env.iso now)) hi
      ∙ ap (◌∷◌ id) (
          split-semicolon address (env.iso now) ha
          ∙ ap (◌∷◌ address) (split_last b';' (env.iso now) hn)))

  -- What was registered for a transaction is read back from its key and value, where the batch's id,
  -- the address and the time's text have no semicolon and the time's text is read back.
  pub parse_pending-register :
      (hash id address : String) (now : ℕ)
      → Lacks b';' id
      → Lacks b';' address
      → Lacks b';' (env.iso now)
      → env.parse (env.iso now) ≡ some now
      → parse_pending env (pending_transaction_key hash) (pending_value env id address now)
        ≡ record { hash = hash; batch_id = id; address = address; date = some now }
  unfolding parse_pending
  parse_pending-register hash id address now hi ha hn hp =
      rw (split-pending_value id address now hi ha hn, replace-key hash, hp)

  -- Where the batch's id has a semicolon, only what stands in front of it is read back as the id.
  pub parse_pending_semicolon :
      (hash start rest address : String) (now : ℕ)
      → Lacks b';' start
      → (parse_pending env
          (pending_transaction_key hash)
          (pending_value env (start +text ";" +text rest) address now)).batch_id
        ≡ start
  unfolding parse_pending
  parse_pending_semicolon hash start rest address now h =
      let tail = rest +text (";" +text (address +text (";" +text env.iso now))) in
      let e : split b';' (pending_value env (start +text ";" +text rest) address now)
          ≡ start ∷ split b';' tail =
        simp append_assoc (split-semicolon start tail h) in
      ap first_or_empty e
