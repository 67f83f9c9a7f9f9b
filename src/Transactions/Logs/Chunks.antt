-- ===== src/Transactions/Logs/Chunks.antt =====
-- The loop over the hashes ends, and asks for each of them in one search of a bounded size.
use Prim.Native.Nat.{◌<◌, ◌≤◌}
use api_elrond_com.Common.{
  ℕ, zero, suc, ◌+◌, ◌≡◌, refl, ap, ◌∙◌, String, some, List, [], ◌∷◌, ◌++◌, length, take, drop, map,
  length-drop, length-take, arith,
}
use api_elrond_com.Transactions.{TransactionLog}
use api_elrond_com.Transactions.Logs.{logs_rounds, get_transaction_logs_from_elastic}

abbrev pub concat {ℓ} : {A : Type ℓ} → List (List A) → List A
concat [] = []
concat (xs ∷ rest) = xs ++ concat rest

-- All lists but the last are of the given length, and the last is not empty and no longer.
abbrev pub IsChunked : ℕ → List (List String) → Type 0
IsChunked size [] = Unit
IsChunked size (c ∷ []) = (0 < length c) × (length c ≤ size)
IsChunked size (c ∷ next ∷ rest) = (length c ≡ size) × IsChunked size (next ∷ rest)

take-drop : (n : ℕ) (hs : List String) → take n hs ++ drop n hs ≡ hs
take-drop zero hs = refl
take-drop (suc n) [] = refl
take-drop (suc n) (h ∷ hs) = ap (λ r. h ∷ r) (take-drop n hs)

length-append : (xs ys : List String) → length (xs ++ ys) ≡ length xs + length ys
length-append [] ys = omega arith
length-append (x ∷ xs) ys = omega (arith, length-append xs ys)

length-concat :
    (m : ℕ) (c : List String) (rest : List (List String))
    → IsChunked (suc m) (c ∷ rest)
    → 0 < length (concat (c ∷ rest))
length-concat m c [] (some_, short) = omega (arith, length-append c [], some_)
length-concat m c (next ∷ rest) (full, h) =
    omega (arith, length-append c (concat (next ∷ rest)), full)

-- A chunk in front of those of what is left behind it.
IsChunked-cons :
    (m : ℕ) (h : String) (hs : List String) (chunks : List (List String))
    → concat chunks ≡ drop m hs
    → IsChunked (suc m) chunks
    → IsChunked (suc m) ((h ∷ take m hs) ∷ chunks)
IsChunked-cons m h hs [] all chunked = (omega arith, omega (arith, length-take m hs))
IsChunked-cons m h hs (c ∷ rest) all chunked = (
  omega (arith, length-concat m c rest chunked, ap length all, length-drop m hs, length-take m hs),
  chunked,
)

module _ (fetch : List String → List TransactionLog) where
  logs_rounds_chunks :
      (m fuel : ℕ) (hs : List String)
      → length hs < fuel
      → (chunks : List (List String)) × (concat chunks ≡ hs)
        × IsChunked (suc m) chunks
        × (logs_rounds fetch (suc m) fuel hs ≡ some (concat (map fetch chunks)))
  unfolding logs_rounds
  logs_rounds_chunks m zero hs enough = absurd (omega (arith, enough))
  logs_rounds_chunks m (suc fuel) [] enough = ([], refl, tt, refl)
  logs_rounds_chunks m (suc fuel) (h ∷ hs) enough =
      let (chunks, all, chunked, found) =
        logs_rounds_chunks m fuel (drop m hs) (omega (arith, enough, length-drop m hs)) in
      (
        (h ∷ take m hs) ∷ chunks,
        ap (λ r. h ∷ (take m hs ++ r)) all ∙ ap (λ r. h ∷ r) (take-drop m hs),
        IsChunked-cons m h hs chunks all chunked,
        rw found refl,
      )

  -- Whatever the search finds, the loop ends for any number of hashes. The hashes are cut, in order and
  -- each in one part only, into parts of 1000 of which the last may be shorter but is not empty, and the
  -- result is what the searches for the parts find, one behind the other.
  pub get_transaction_logs_chunks :
      (hashes : List String)
      → (chunks : List (List String)) × (concat chunks ≡ hashes)
        × IsChunked 1000 chunks
        × (get_transaction_logs_from_elastic fetch hashes ≡ some (concat (map fetch chunks)))
  unfolding get_transaction_logs_from_elastic
  get_transaction_logs_chunks hashes =
      logs_rounds_chunks 999 (suc (length hashes)) hashes (omega arith)
