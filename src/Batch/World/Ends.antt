-- ===== src/Batch/World/Ends.antt =====
-- Postconditions of a computation that may throw, for the proofs about the batch services.
use api_elrond_com.Common.{◌≡◌, refl, Option, none, some}
use api_elrond_com.Batch.World.{Outcome, ok, thrown, World, M, ◌>>=◌, of_option}

module _ {B P : Type 0} where
  -- `Q` holds where the run returns, and `E` where it throws.
  abbrev pub Ends :
      {A : Type 0}
      → (A → World B P → Type 0)
      → (World B P → Type 0)
      → Outcome A × World B P
      → Type 0
  Ends Q E (ok a, w) = Q a w
  Ends Q E (thrown f, w) = E w

  bind_run-Ends :
      {A C : Type 0} (Q : A → World B P → Type 0) (R : C → World B P → Type 0)
      (E : World B P → Type 0) (k : A → M B P C) (r : Outcome A × World B P)
      → Ends Q E r
      → ((a : A) (w : World B P) → Q a w → Ends R E (k a w))
      → Ends R E (elim (r.0) [ ok a ↦ k a (r.1) | thrown f ↦ (thrown f, r.1) ])
  bind_run-Ends Q R E k (ok a, w) h next = next a w h
  bind_run-Ends Q R E k (thrown f, w) h next = h

  pub bind-Ends :
      {A C : Type 0} (Q : A → World B P → Type 0) (R : C → World B P → Type 0)
      (E : World B P → Type 0) (m : M B P A) (k : A → M B P C) (w : World B P)
      → Ends Q E (m w)
      → ((a : A) (w' : World B P) → Q a w' → Ends R E (k a w'))
      → Ends R E ((m >>= k) w)
  bind-Ends Q R E m k w h next = bind_run-Ends Q R E k (m w) h next

  pub Ends-weaken :
      {A : Type 0} (Q R : A → World B P → Type 0) (E F : World B P → Type 0)
      (r : Outcome A × World B P)
      → ((a : A) (w : World B P) → Q a w → R a w)
      → ((w : World B P) → E w → F w)
      → Ends Q E r
      → Ends R F r
  Ends-weaken Q R E F (ok a, w) q e h = q a w h
  Ends-weaken Q R E F (thrown f, w) q e h = e w h

  pub of_option-Ends :
      {A : Type 0} (Q : A → World B P → Type 0) (E : World B P → Type 0) (o : Option A)
      (w : World B P)
      → ((a : A) → o ≡ some a → Q a w)
      → E w
      → Ends Q E (of_option o w)
  of_option-Ends Q E none w q e = e
  of_option-Ends Q E (some a) w q e = q a refl

  -- What holds of the world however the run ends.
  pub Ends-world :
      {A : Type 0} (R : World B P → Type 0) (r : Outcome A × World B P)
      → Ends (λ _ w. R w) R r
      → R (r.1)
  Ends-world R (ok a, w) h = h
  Ends-world R (thrown f, w) h = h
