-- ===== src/ProcessNfts/Owner.antt =====
-- Whom a collection belongs to in the end.
use api_elrond_com.Common.{
  ℕ, zero, suc, ◌≡◌, refl, sym, ◌∙◌, subst, ◌↔◌, String, true, false, none, some, Bool-cases,
  Option-cases, inl, inr,
}
use api_elrond_com.ProcessNfts.State.{Env, ok, throws, Error}
use api_elrond_com.ProcessNfts.{follow_owners}

module _ {S O : Type 0} (env : Env S O) where
  -- From an address, up at most so many owners of contracts, to one that is no contract.
  pub data Reaches : ℕ → String → String → Type 0 where
    here : {n : ℕ} {a : String} → env.is_smart_contract_address a ≡ false → Reaches n a a
    up :
        {n : ℕ} {a b c : String}
        → env.is_smart_contract_address a ≡ true
        → env.account_owner a ≡ some b
        → Reaches n b c
        → Reaches (suc n) a c

  follow_owners_here :
      (n : ℕ) (a : String) → env.is_smart_contract_address a ≡ false → follow_owners env n a ≡ ok a
  unfolding follow_owners
  follow_owners_here zero a e = rw e refl
  follow_owners_here (suc n) a e = rw e refl

  follow_owners_up :
      (n : ℕ) (a b : String)
      → env.is_smart_contract_address a ≡ true
      → env.account_owner a ≡ some b
      → follow_owners env (suc n) a ≡ follow_owners env n b
  unfolding follow_owners
  follow_owners_up n a b e next = rw (e, next, follow_owners) refl

  follow_owners_stuck :
      (n : ℕ) (a : String)
      → env.is_smart_contract_address a ≡ true
      → env.account_owner a ≡ none
      → follow_owners env (suc n) a ≡ throws Error.no_account
  unfolding follow_owners
  follow_owners_stuck n a e next = rw (e, next, follow_owners) refl

  follow_owners_end :
      (a : String)
      → env.is_smart_contract_address a ≡ true
      → follow_owners env zero a ≡ throws Error.owner_is_contract
  unfolding follow_owners
  follow_owners_end a e = rw (e, follow_owners) refl

  follow_owners-Reaches : (n : ℕ) (a o : String) → follow_owners env n a ≡ ok o → Reaches n a o
  follow_owners-Reaches zero a o h = elim (Bool-cases (env.is_smart_contract_address a)) [
    | inr e ↦
        let same : a ≡ o = (let both : ok a ≡ ok o = sym (follow_owners_here zero a e) ∙ h in cc) in
        subst (λ x. Reaches zero a x) same (here e)
    | inl e ↦
        absurd
          (let both : throws Error.owner_is_contract ≡ ok o = sym (follow_owners_end a e) ∙ h in cc)
  ]
  follow_owners-Reaches (suc n) a o h = elim (Bool-cases (env.is_smart_contract_address a)) [
    | inr e ↦
        let same : a ≡ o =
          (let both : ok a ≡ ok o = sym (follow_owners_here (suc n) a e) ∙ h in cc) in
        subst (λ x. Reaches (suc n) a x) same (here e)
    | inl e ↦ elim (Option-cases (env.account_owner a)) [
      | inl none_there ↦ absurd (
          let both : throws Error.no_account ≡ ok o =
            sym (follow_owners_stuck n a e none_there) ∙ h in
          cc)
      | inr (b, next) ↦
          up e next (follow_owners-Reaches n b o (sym (follow_owners_up n a b e next) ∙ h))
    ]
  ]

  Reaches-follow_owners : (n : ℕ) (a o : String) → Reaches n a o → follow_owners env n a ≡ ok o
  unfolding follow_owners
  Reaches-follow_owners zero a o (here e) = rw e refl
  Reaches-follow_owners (suc n) a o (here e) = rw e refl
  Reaches-follow_owners (suc n) a o (up e next r) = rw (e, next) (Reaches-follow_owners n _ o r)

  -- The loop gives an owner exactly where that address is no contract and is reached from the first one
  -- by at most so many steps, each from a contract to the owner of its account.
  pub follow_owners_iff : (n : ℕ) (a o : String) → (follow_owners env n a ≡ ok o) ↔ Reaches n a o
  follow_owners_iff n a o = (follow_owners-Reaches n a o, Reaches-follow_owners n a o)
