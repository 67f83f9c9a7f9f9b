-- ===== src/Providers.antt =====
-- The staking providers: `getAllProvidersRaw`, `getNodesInfosForProvider`,
-- `getProvidersWithStakeInformationRaw` and `getFilteredProviders` of
-- src/endpoints/providers/provider.service.ts.
pub mod Confirmed
pub mod Listed
mod Tests
use api_elrond_com.Common.{
  ℕ, ◌+◌, String, Bool, true, false, not, ◌&&◌, Option, none, some, List, [], ◌∷◌, map, filter,
  find?, contains, option_eq, string_eq, ◌==◌, is_truthy, ltb, if◌then◌else◌,
}
use api_elrond_com.Nodes.{Node, KeybaseState}

-- The fee, the cap, the return, the users and the rewards, which the service only passes on, are left
-- out; an amount is a number here, where the code keeps its decimals.
pub record Provider : Type 0 where
  pub provider : String
  pub owner : Option String
  pub identity : Option String
  pub num_nodes : ℕ
  pub stake : ℕ
  pub top_up : ℕ
  pub locked : ℕ
  pub featured : Bool

pub record NodesInfos : Type 0 where
  pub num_nodes : ℕ
  pub stake : ℕ
  pub top_up : ℕ
  pub locked : ℕ

pub record DelegationData : Type 0 where
  pub contract : String
  pub featured : Bool
  pub owner : Option String

pub record ProviderFilter : Type 0 where
  pub identity : Option String
  pub providers : Option (List String)

-- The contract's and the keybase's answers for an address.
pub record Answers : Type 0 where
  pub owner : String → String
  pub metadata_identity : String → Option String
  pub keybases : Option (String → Option KeybaseState)

abbrev pub has_address : String → Provider → Bool
has_address address p = p.provider == address

abbrev pub find_provider : String → List Provider → Option Provider
find_provider address providers = find? (has_address address) providers

abbrev pub is_confirmed : (String → Option KeybaseState) → String → Bool
is_confirmed keybases address = elim (keybases address) [
  | none ↦ false
  | some state ↦ state.confirmed
]

abbrev pub clear_identity : Provider → Provider
clear_identity p = record p { identity = none }

abbrev pub clear_first : String → List Provider → List Provider
clear_first address [] = []
clear_first address (p ∷ ps) =
    if p.provider == address then clear_identity p ∷ ps else p ∷ clear_first address ps

-- The loop over the addresses.
unfoldable pub clear_unconfirmed :
    (String → Option KeybaseState) → List String → List Provider → List Provider
clear_unconfirmed keybases [] ps = ps
clear_unconfirmed keybases (address ∷ rest) ps =
    clear_unconfirmed keybases rest
      (if is_confirmed keybases address then ps else clear_first address ps)

abbrev pub new_provider : Answers → String → Provider
new_provider answers address = record {
  provider = address;
  owner = some (answers.owner address);
  identity = answers.metadata_identity address;
  num_nodes = 0;
  stake = 0;
  top_up = 0;
  locked = 0;
  featured = false;
}

unfoldable pub get_all_providers_raw : Answers → List String → List Provider
unfolding clear_unconfirmed
get_all_providers_raw answers addresses =
    let raw = map (new_provider answers) addresses in
    elim (answers.keybases) [
      | none ↦ raw
      | some keybases ↦ clear_unconfirmed keybases addresses raw
    ]

-- `big_int` is `BigInt` of a text; `nodes_of` is `groupBy` of the nodes by their provider; `sort` sorts by
-- the locked amount, `is_formatted` is the test of an identity by a regular expression.
pub record Parts : Type 0 where
  pub big_int : String → ℕ
  pub nodes_of : String → List Node
  pub delegations : List DelegationData
  pub sort : List Provider → List Provider
  pub is_formatted : String → Bool

abbrev pub text_or_empty : Option String → String
text_or_empty none = ""
text_or_empty (some s) = s

module _ (parts : Parts) where
  abbrev pub add_node_infos : NodesInfos → Node → NodesInfos
  add_node_infos infos node =
      let added : NodesInfos = record {
        num_nodes = infos.num_nodes + 1;
        stake = infos.stake + parts.big_int node.stake;
        top_up = infos.top_up + parts.big_int node.top_up;
        locked = infos.locked + parts.big_int node.locked;
      } in
      if is_truthy (some node.stake)
        && (is_truthy (some node.top_up) && is_truthy (some node.locked))
      then added
      else infos

  unfoldable pub add_nodes_infos : NodesInfos → List Node → NodesInfos
  add_nodes_infos infos [] = infos
  add_nodes_infos infos (node ∷ nodes) = add_nodes_infos (add_node_infos infos node) nodes

  unfoldable pub get_nodes_infos_for_provider : List Node → NodesInfos
  unfolding add_nodes_infos
  get_nodes_infos_for_provider nodes =
      add_nodes_infos (record { num_nodes = 0; stake = 0; top_up = 0; locked = 0 }) nodes

  unfoldable pub with_delegation : Provider → Provider
  with_delegation p =
      elim (find? (λ (d : DelegationData). p.provider == d.contract) parts.delegations) [
        | none ↦ p
        | some d ↦ record p {
          featured = if d.featured then d.featured else p.featured;
          owner = if is_truthy d.owner then d.owner else p.owner;
        }
      ]

  unfoldable pub with_information : Provider → Provider
  unfolding with_delegation get_nodes_infos_for_provider
  with_information p =
      let infos = get_nodes_infos_for_provider (parts.nodes_of p.provider) in
      record (with_delegation p) {
        num_nodes = infos.num_nodes;
        stake = infos.stake;
        top_up = infos.top_up;
        locked = infos.locked;
      }

  abbrev pub is_listed : Provider → Bool
  is_listed p = ltb 0 p.num_nodes && parts.is_formatted (text_or_empty p.identity)

  unfoldable pub get_providers_with_stake_information_raw : List Provider → List Provider
  unfolding with_information
  get_providers_with_stake_information_raw providers =
      filter is_listed (parts.sort (map with_information providers))

abbrev pub keeps_identity : Option String → Provider → Bool
keeps_identity identity p = if is_truthy identity then p.identity == identity else true

abbrev pub keeps_address : Option (List String) → Provider → Bool
keeps_address none p = true
keeps_address (some addresses) p = is_truthy (some p.provider) && contains addresses p.provider

unfoldable pub get_filtered_providers : ProviderFilter → List Provider → List Provider
get_filtered_providers query providers =
    filter (keeps_address query.providers) (filter (keeps_identity query.identity) providers)
