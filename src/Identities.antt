-- ===== src/Identities.antt =====
-- Identities and their stake: `getAllIdentitiesRaw` up to the sums, `computeTotalStakeAndTopUp`,
-- `getStakeDistributionForIdentity`, `getIdentity` and `getIdentities` of
-- src/endpoints/identities/identities.service.ts.
pub mod Grouping
pub mod Distribution
mod Tests
use api_elrond_com.Common.{
  ℕ, ◌+◌, ◌-◌, ◌*◌, ◌/◌, String, Bool, true, false, not, ◌&&◌, Option, none, some, List, [], ◌∷◌,
  ◌++◌, map, filter, find?, length, contains, sum, option_eq, string_eq, ◌==◌, is_truthy, ltb,
  nat_beq, if◌then◌else◌,
}
use api_elrond_com.Nodes.{NodeType, NodeStatus, node_type_eq, node_status_eq, Node, is_validator}

-- The profile that the keybase has of an identity.
pub record KeybaseIdentity : Type 0 where
  pub identity : Option String
  pub name : Option String
  pub avatar : Option String
  pub description : Option String
  pub location : Option String
  pub twitter : Option String
  pub website : Option String

-- `nodes` is `none` until the first node is added.
pub record IdentityDetailed : Type 0 where
  pub identity : Option String
  pub name : Option String
  pub avatar : Option String
  pub description : Option String
  pub location : Option String
  pub twitter : Option String
  pub website : Option String
  pub nodes : Option (List Node)

abbrev pub new_identity_detailed : IdentityDetailed
new_identity_detailed = record {
  identity = none;
  name = none;
  avatar = none;
  description = none;
  location = none;
  twitter = none;
  website = none;
  nodes = none;
}

unfoldable pub of_keybases : List (Option KeybaseIdentity) → List IdentityDetailed
of_keybases [] = []
of_keybases (none ∷ rest) = of_keybases rest
of_keybases (some k ∷ rest) =
    let others = of_keybases rest in
    let detailed : IdentityDetailed = record {
      identity = k.identity;
      name = k.name;
      avatar = k.avatar;
      description = k.description;
      location = k.location;
      twitter = k.twitter;
      website = k.website;
      nodes = none;
    } in
    if is_truthy k.identity then detailed ∷ others else others

abbrev pub nodes_of : IdentityDetailed → List Node
nodes_of detailed = elim (detailed.nodes) [ none ↦ [] | some nodes ↦ nodes ]

-- The node is pushed to the identity, which takes the node's key for a name where it has none.
abbrev pub push_node : Node → IdentityDetailed → IdentityDetailed
push_node node detailed = record detailed {
  nodes = some (nodes_of detailed ++ node ∷ []);
  name = if is_truthy detailed.name then detailed.name else some node.bls;
}

abbrev pub lone_node : Node → IdentityDetailed
lone_node node = record new_identity_detailed { name = some node.bls; nodes = some (node ∷ []) }

-- The first identity that is the node's gets the node.
abbrev pub push_to_first : Node → List IdentityDetailed → List IdentityDetailed
push_to_first node [] = []
push_to_first node (detailed ∷ rest) =
    if detailed.identity == node.identity
    then push_node node detailed ∷ rest
    else detailed ∷ push_to_first node rest

abbrev pub find_identity : Option String → List IdentityDetailed → Option IdentityDetailed
find_identity identity details = find? (λ (d : IdentityDetailed). d.identity == identity) details

unfoldable pub add_node : List IdentityDetailed → Node → List IdentityDetailed
add_node details node = elim (find_identity node.identity details) [
  | none ↦ details ++ lone_node node ∷ []
  | some _ ↦
      if is_truthy node.identity then push_to_first node details else details ++ lone_node node ∷ []
]

unfoldable pub add_nodes : List IdentityDetailed → List Node → List IdentityDetailed
unfolding add_node
add_nodes details [] = details
add_nodes details (node ∷ nodes) = add_nodes (add_node details node) nodes

-- The identities with their nodes.
unfoldable pub get_identities_detailed :
    List (Option KeybaseIdentity) → List Node → List IdentityDetailed
unfolding of_keybases add_nodes
get_identities_detailed keybases nodes = add_nodes (of_keybases keybases) nodes

-- The values of an object by key in the order of their first writes.
abbrev pub add_amount : String → ℕ → List (String × ℕ) → List (String × ℕ)
add_amount key n [] = (key, n) ∷ []
add_amount key n ((k, m) ∷ rest) =
    if k == key then (k, m + n) ∷ rest else (k, m) ∷ add_amount key n rest

abbrev pub percent_of : ℕ → ℕ → Option ℕ
percent_of locked n = if nat_beq locked 0 then none else some ((100 * n) / locked)

-- A null counts as 0 in a sum.
abbrev pub or_zero : Option ℕ → ℕ
or_zero none = 0
or_zero (some n) = n

abbrev pub percents_of : ℕ → List (String × ℕ) → List (String × Option ℕ)
percents_of locked [] = []
percents_of locked ((k, n) ∷ rest) = (k, percent_of locked n) ∷ percents_of locked rest

abbrev pub sum_percents : List (String × Option ℕ) → ℕ
sum_percents [] = 0
sum_percents ((k, p) ∷ rest) = or_zero p + sum_percents rest

-- The first of several keys gets what is left of 1.
unfoldable pub settle_first : List (String × Option ℕ) → List (String × Option ℕ)
settle_first [] = []
settle_first (one ∷ []) = one ∷ []
settle_first ((k, p) ∷ q ∷ rest) = (k, some (100 - sum_percents (q ∷ rest))) ∷ q ∷ rest

abbrev pub is_zero : Option ℕ → Bool
is_zero none = false
is_zero (some n) = nat_beq n 0

abbrev pub drop_zeros : List (String × Option ℕ) → List (String × Option ℕ)
drop_zeros [] = []
drop_zeros ((k, p) ∷ rest) =
    let others = drop_zeros rest in if is_zero p then others else (k, p) ∷ others

-- `BigInt(text)`, of a text that is not empty.
module _ (big_int : String → ℕ) where
  abbrev pub amount : String → ℕ
  amount s = if s == "" then 0 else big_int s

  -- A node adds to its provider's part, or to the part `direct`.
  abbrev pub add_to_distribution : List (String × ℕ) → Node → List (String × ℕ)
  add_to_distribution parts node =
      add_amount (if node.provider == "" then "direct" else node.provider)
        (amount node.stake + amount node.top_up) parts

  unfoldable pub parts_of : List (String × ℕ) → List Node → List (String × ℕ)
  parts_of parts [] = parts
  parts_of parts (node ∷ nodes) = parts_of (add_to_distribution parts node) nodes

  -- `stake + topUp` of the nodes, which is `locked`.
  abbrev pub locked_of : List Node → ℕ
  locked_of [] = 0
  locked_of (node ∷ nodes) = (amount node.stake + amount node.top_up) + locked_of nodes

  -- In hundredths, which the code rounds to; a null is `none`.
  unfoldable pub get_stake_distribution : ℕ → List Node → List (String × Option ℕ)
  unfolding parts_of settle_first
  get_stake_distribution locked nodes =
      drop_zeros (settle_first (percents_of locked (parts_of [] nodes)))

  -- `computeTotalStakeAndTopUp`: of the validators only, except for the number of nodes.
  unfoldable pub compute_total_stake : List Node → ℕ
  compute_total_stake [] = 0
  compute_total_stake (node ∷ nodes) =
      (if is_validator node then amount node.stake else 0) + compute_total_stake nodes

  unfoldable pub compute_total_top_up : List Node → ℕ
  compute_total_top_up [] = 0
  compute_total_top_up (node ∷ nodes) =
      (if is_validator node then amount node.top_up else 0) + compute_total_top_up nodes

-- The numbers of validators and of queued nodes of an identity.
unfoldable pub count_validators : List Node → ℕ
count_validators nodes =
    length
      (filter (λ (n : Node). is_validator n && not (n.status == some NodeStatus.inactive)) nodes)

unfoldable pub count_queued : List Node → ℕ
count_queued nodes =
    length (filter (λ (n : Node). is_validator n && n.status == some NodeStatus.queued) nodes)
