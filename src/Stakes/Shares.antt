-- ===== src/Stakes/Shares.antt =====
-- What a node's share of its owner's stake is, and the counts of validators.
use Prim.Native.Nat.{◌≤◌, ◌<◌}
use native.Mathlib.Nat.{div-mul-le_self, lt-div-mul-add, mul_comm}
use api_elrond_com.Common.{
  ℕ, ◌+◌, ◌*◌, ◌-◌, ◌/◌, ◌≡◌, refl, String, Bool, true, false, ◌&&◌, some, List, [], ◌∷◌, map, leb,
  length, nat_beq, arith,
}
use api_elrond_com.Nodes.{Node}
use api_elrond_com.Stakes.{
  pos, minus, divide, is_zero, StakeTopup, Decoders, get_all_stakes_for_address_nodes_raw,
  get_validators,
}

-- A node's share of an amount, rounded down.
abbrev pub IsShare : ℕ → ℕ → ℕ → Type 0
IsShare share n total = (n * share ≤ total) × (total < n * share + n)

divide-IsShare : (n total : ℕ) → 0 < n → IsShare (total / n) n total
divide-IsShare n total h = (
  omega (arith, div-mul-le_self total n, mul_comm n (total / n)),
  omega (arith, lt-div-mul-add {a = total} h, mul_comm n (total / n)),
)

and_false : (b : Bool) → (b && false) ≡ false
and_false b = ground arith

module _ (decoders : Decoders) where
  -- With at least one node and a top-up within the stake, an answer of the contract is read: the top-up,
  -- the stake without it and the whole are each shared equally among the nodes, rounded down.
  pub get_all_stakes-IsShare :
      (address a b c : String) (keys : List String)
      → decoders.number a ≤ decoders.number b
      → 0 < decoders.number c
      → (s : StakeTopup) × (share : ℕ) × (get_all_stakes_for_address_nodes_raw decoders address
            (some (a ∷ b ∷ c ∷ keys))
          ≡ some s)
        × (s.stake ≡ pos share)
        × (s.num_nodes ≡ decoders.number c)
        × IsShare s.top_up s.num_nodes (decoders.number a)
        × IsShare share s.num_nodes (decoders.number b - decoders.number a)
        × IsShare s.locked s.num_nodes (decoders.number b)
  unfolding get_all_stakes_for_address_nodes_raw
  get_all_stakes-IsShare address a b c keys within some_nodes =
      let n = decoders.number c in
      let some_nodes' : nat_beq n 0 ≡ false = ground arith in
      let in_stake : leb (decoders.number a) (decoders.number b) ≡ true = ground arith in
      let share = (decoders.number b - decoders.number a) / n in
      (
        record {
          top_up = decoders.number a / n;
          stake = pos share;
          locked = decoders.number b / n;
          num_nodes = n;
          address = address;
          blses = map decoders.hex keys;
        },
        share,
        rw
            (
              some_nodes',
              and_false (is_zero (minus (decoders.number b) (decoders.number a))),
              in_stake,
              divide,
            )
            refl,
        refl,
        refl,
        divide-IsShare n (decoders.number a) some_nodes,
        divide-IsShare n (decoders.number b - decoders.number a) some_nodes,
        divide-IsShare n (decoders.number b) some_nodes,
      )

-- A validator is counted as active only if it is counted at all, and only nodes are counted.
pub get_validators-le :
    (queue_size : ℕ) (nodes : List Node)
    → ((get_validators queue_size nodes).active_validators
        ≤ (get_validators queue_size nodes).total_validators)
      × ((get_validators queue_size nodes).total_validators ≤ length nodes)
unfolding get_validators
get_validators-le queue_size [] = (omega arith, omega arith)
get_validators-le queue_size (n ∷ nodes) = ground (arith, get_validators-le queue_size nodes)
