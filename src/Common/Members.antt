-- ===== src/Common/Members.antt =====
-- Elements of lists and Boolean tests.
use mathlib.Core.Path.{◌≡◌, refl, subst}
use mathlib.Core.Logic.{inl, inr}
use mathlib.Core.Bool.{Bool, true}
use mathlib.Core.List.{List, [], ◌∷◌, Memᴰ}
use native.Mathlib.Omega.{arith}
use api_elrond_com.Common.Tests.{Bool-cases}
use api_elrond_com.Common.Lists.{any, filter}

module _ {ℓ} {A : Type ℓ} where
  pub any-Memᴰ : (p : A → Bool) (xs : List A) → any p xs ≡ true → (x : A) × Memᴰ x xs × (p x ≡ true)
  any-Memᴰ p [] h = cc
  any-Memᴰ p (x ∷ xs) h = elim (Bool-cases (p x)) [
    | inl hit ↦ (x, Memᴰ.head refl, hit)
    | inr miss ↦ let (y, among, hit) = any-Memᴰ p xs (ground arith) in (y, Memᴰ.tail among, hit)
  ]

  pub Memᴰ-filter :
      (p : A → Bool) (x : A) (xs : List A) → Memᴰ x xs → p x ≡ true → Memᴰ x (filter p xs)
  Memᴰ-filter p x [] m h = elim m [ ]
  Memᴰ-filter p x (y ∷ xs) (Memᴰ.head e) h = rw (subst (λ z. p z ≡ true) e h) (Memᴰ.head e)
  Memᴰ-filter p x (y ∷ xs) (Memᴰ.tail m) h = elim (Bool-cases (p y)) [
    | inl hit ↦ rw (hit, filter) (Memᴰ.tail (Memᴰ-filter p x xs m h))
    | inr miss ↦ rw (miss, filter) (Memᴰ-filter p x xs m h)
  ]
