-- ===== src/Identities/Distribution.antt =====
-- The stake distribution of an identity adds up.
use Prim.Native.Nat.{◌≤◌, ◌<◌}
use api_elrond_com.Common.{
  ℕ, ◌+◌, ◌*◌, ◌/◌, ◌≡◌, refl, ◌∙◌, String, false, Option, none, some, List, [], ◌∷◌, string_eq,
  ◌==◌, nat_beq, if◌then◌else◌, arith,
}
use native.Mathlib.Nat.{
  div-mul-le_self, add-mul, mul-div_cancel, le_of_mul-le-mul_right, mul-le-mul_left,
}
use api_elrond_com.Nodes.{Node}
use api_elrond_com.Identities.{
  add_amount, percent_of, percents_of, sum_percents, settle_first, drop_zeros, amount,
  add_to_distribution, parts_of, locked_of, get_stake_distribution,
}

total : List (String × ℕ) → ℕ
total [] = 0
total ((k, n) ∷ rest) = n + total rest

total-add_amount :
    (key : String) (n : ℕ) (parts : List (String × ℕ))
    → total (add_amount key n parts) ≡ total parts + n
unfolding total
total-add_amount key n [] = omega arith
total-add_amount key n ((k, m) ∷ rest) = ground (arith, total-add_amount key n rest)

total-parts_of :
    (big_int : String → ℕ) (nodes : List Node) (parts : List (String × ℕ))
    → total (parts_of big_int parts nodes) ≡ total parts + locked_of big_int nodes
unfolding parts_of
total-parts_of big_int [] parts = omega arith
total-parts_of big_int (n ∷ nodes) parts = omega (
  arith,
  total-parts_of big_int nodes (add_to_distribution big_int parts n),
  total-add_amount (if n.provider == "" then "direct" else n.provider)
      (amount big_int n.stake + amount big_int n.top_up) parts,
)

-- The rounded parts are at most the whole.
percent-bound :
    (locked : ℕ) (parts : List (String × ℕ))
    → 0 < locked
    → sum_percents (percents_of locked parts) * locked ≤ 100 * total parts
unfolding total
percent-bound locked [] pos = omega arith
percent-bound locked ((k, n) ∷ parts) pos =
    let nonzero : nat_beq locked 0 ≡ false = ground arith in
    rw (nonzero, percents_of, percent_of)
      (omega (
        arith,
        percent-bound locked parts pos,
        div-mul-le_self (100 * n) locked,
        add-mul ((100 * n) / locked) (sum_percents (percents_of locked parts)) locked,
      ))

sum_percents-drop_zeros :
    (ps : List (String × Option ℕ)) → sum_percents (drop_zeros ps) ≡ sum_percents ps
sum_percents-drop_zeros [] = refl
sum_percents-drop_zeros ((k, none) ∷ ps) = omega (arith, sum_percents-drop_zeros ps)
sum_percents-drop_zeros ((k, some n) ∷ ps) = ground (arith, sum_percents-drop_zeros ps)

sum_percents-settle_first :
    (locked : ℕ) (parts : List (String × ℕ))
    → 0 < locked
    → total parts ≡ locked
    → sum_percents (settle_first (percents_of locked parts)) ≡ 100
unfolding total settle_first
sum_percents-settle_first locked [] pos e = absurd (omega (arith, pos, e))
sum_percents-settle_first locked ((k, n) ∷ []) pos e =
    let same : n ≡ locked = omega (arith, e) in
    let nonzero : nat_beq locked 0 ≡ false = ground arith in
    rw (same, nonzero, percent_of) (omega (arith, mul-div_cancel 100 pos))
sum_percents-settle_first locked ((k, n) ∷ q ∷ parts) pos e =
    let below : total (q ∷ parts) ≤ locked = omega (arith, e) in
    let rest : sum_percents (percents_of locked (q ∷ parts)) ≤ 100 =
      le_of_mul-le-mul_right
        (omega (arith, percent-bound locked (q ∷ parts) pos, mul-le-mul_left 100 below)) pos in
    omega (arith, rest)

-- Where something is staked, the parts of the distribution add up to the whole: the hundredths of all
-- keys together are 100.
pub sum_percents-get_stake_distribution :
    (big_int : String → ℕ) (nodes : List Node)
    → 0 < locked_of big_int nodes
    → sum_percents (get_stake_distribution big_int (locked_of big_int nodes) nodes) ≡ 100
unfolding get_stake_distribution total
sum_percents-get_stake_distribution big_int nodes pos =
    sum_percents-drop_zeros
      (settle_first (percents_of (locked_of big_int nodes) (parts_of big_int [] nodes)))
    ∙ sum_percents-settle_first (locked_of big_int nodes) (parts_of big_int [] nodes) pos
        (omega (arith, total-parts_of big_int nodes []))
