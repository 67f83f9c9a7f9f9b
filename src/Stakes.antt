-- ===== src/Stakes.antt =====
-- The stake of an owner's nodes and the counts of validators: `getAllStakesForAddressNodesRaw`,
-- `getStakes`, `getValidators` and the unstaked tokens of `getStakeForAddress` of
-- src/endpoints/stake/stake.service.ts.
pub mod Shares
mod Tests
use api_elrond_com.Common.{
  ℕ, suc, ◌+◌, ◌-◌, ◌/◌, String, Bool, true, false, ◌&&◌, ◌||◌, Option, none, some, List, [], ◌∷◌,
  ◌++◌, map, filter, length, option_eq, ◌==◌, bool_eq, nat_beq, leb, if◌then◌else◌,
}
use api_elrond_com.Nodes.{
  NodeType, NodeStatus, node_type_eq, node_status_eq, Node, Stake, is_validator,
}

-- A `BigInt`, under the library's names over native numbers.
pub data ℤ : Type 0 where
  pos : ℕ → ℤ
  negsuc : ℕ → ℤ

abbrev pub minus : ℕ → ℕ → ℤ
minus a b = if leb b a then pos (a - b) else negsuc ((b - a) - 1)

-- `BigInt` division rounds toward zero.
abbrev pub divide : ℤ → ℕ → ℤ
divide (pos a) n = pos (a / n)
divide (negsuc a) n = let q = (a + 1) / n in if nat_beq q 0 then pos 0 else negsuc (q - 1)

abbrev pub is_zero : ℤ → Bool
is_zero (pos a) = nat_beq a 0
is_zero (negsuc a) = false

-- The amounts are kept as numbers here, where the code keeps their decimals.
pub record StakeTopup : Type 0 where
  pub top_up : ℕ
  pub stake : ℤ
  pub locked : ℕ
  pub num_nodes : ℕ
  pub address : String
  pub blses : List String

abbrev pub no_stake : String → ℕ → List String → StakeTopup
no_stake address n blses = record {
  top_up = 0;
  stake = pos 0;
  locked = 0;
  num_nodes = n;
  address = address;
  blses = blses;
}

-- The decoders of the contract's answers: `BigInt` of base64, and hex of base64.
pub record Decoders : Type 0 where
  pub number : String → ℕ
  pub hex : String → String

-- `undefined` epochs are not there: an element without a second one throws.
pub record UnstakedToken : Type 0 where
  pub amount : ℕ
  pub epochs : ℕ

module _ (decoders : Decoders) where
  -- A division by no nodes throws, and so does an answer of fewer than three values.
  unfoldable pub get_all_stakes_for_address_nodes_raw :
      String → Option (List String) → Option StakeTopup
  get_all_stakes_for_address_nodes_raw address none = some (no_stake address 0 [])
  get_all_stakes_for_address_nodes_raw address (some []) = none
  get_all_stakes_for_address_nodes_raw address (some (a ∷ [])) = none
  get_all_stakes_for_address_nodes_raw address (some (a ∷ b ∷ [])) = none
  get_all_stakes_for_address_nodes_raw address (some (a ∷ b ∷ c ∷ keys)) =
      let total_top_up = decoders.number a in
      let total_staked = minus (decoders.number b) total_top_up in
      let total_locked = decoders.number b in
      let num_nodes = decoders.number c in
      let blses = map decoders.hex keys in
      if is_zero total_staked && nat_beq num_nodes 0
      then some (no_stake address num_nodes blses)
      else if nat_beq num_nodes 0
      then none
      else some (record {
        top_up = total_top_up / num_nodes;
        stake = divide total_staked num_nodes;
        locked = total_locked / num_nodes;
        num_nodes = num_nodes;
        address = address;
        blses = blses;
      })

  -- `getUnStakedTokensList`: an amount and a number of epochs each.
  unfoldable pub unstaked_tokens : List String → Option (List UnstakedToken)
  unstaked_tokens [] = some []
  unstaked_tokens (a ∷ []) = none
  unstaked_tokens (a ∷ e ∷ rest) = elim (unstaked_tokens rest) [
    | none ↦ none
    | some tokens ↦
        some (record { amount = decoders.number a; epochs = decoders.number e } ∷ tokens)
  ]

-- The stake of each key of each address; `of_topup` is `mergeObjects` of the package
-- `@multiversx/sdk-nestjs` with the key.
module _ (of_topup : StakeTopup → String → Stake) where
  unfoldable pub get_stakes : List StakeTopup → List Stake
  get_stakes [] = []
  get_stakes (s ∷ stakes) = map (of_topup s) s.blses ++ get_stakes stakes

-- Eligible or waiting.
abbrev pub is_active_status : Option NodeStatus → Bool
is_active_status status =
    (status == some NodeStatus.eligible) || (status == some NodeStatus.waiting)

pub record Validators : Type 0 where
  pub total_validators : ℕ
  pub active_validators : ℕ
  pub queue_size : ℕ

unfoldable pub get_validators : ℕ → List Node → Validators
get_validators queue_size nodes = record {
  total_validators =
      length (filter (λ (n : Node). is_validator n && is_active_status n.status) nodes);
  active_validators =
      length
        (filter (λ (n : Node). is_validator n && (is_active_status n.status && n.online)) nodes);
  queue_size = queue_size;
}
