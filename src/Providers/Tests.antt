-- ===== src/Providers/Tests.antt =====
-- Two providers, and the properties at inputs of their own.
use api_elrond_com.Common.{
  ◌≡◌, refl, String, true, Option, none, some, [], ◌∷◌, string_eq, ◌==◌, if◌then◌else◌,
}
use api_elrond_com.Nodes.{Node, new_node, KeybaseState}
use api_elrond_com.Providers.{
  Provider, Answers, Parts, find_provider, is_confirmed, get_all_providers_raw,
  get_nodes_infos_for_provider,
}
use api_elrond_com.Providers.Confirmed.{get_all_providers_raw-confirmed}
use api_elrond_com.Providers.Listed.{total_of, get_nodes_infos_for_provider-total}

abbrev one_confirmed : String → Option KeybaseState
one_confirmed address =
    if address == "p" then some (record { identity = some "team"; confirmed = true }) else none

abbrev answers : Answers
answers = record {
  owner = λ a. "o";
  metadata_identity = λ a. some "team";
  keybases = some one_confirmed;
}

get_all_providers_raw-confirmed_example :
    (p : Provider) × (find_provider "q" (get_all_providers_raw answers ("p" ∷ "q" ∷ [])) ≡ some p)
    × (p.identity ≡ (if is_confirmed one_confirmed "q" then some "team" else none))
get_all_providers_raw-confirmed_example =
    get_all_providers_raw-confirmed answers one_confirmed ("p" ∷ "q" ∷ []) "q" refl refl

abbrev parts : Parts
parts = record {
  big_int = λ s. 5;
  nodes_of = λ p. [];
  delegations = [];
  sort = λ ps. ps;
  is_formatted = λ s. true;
}

abbrev staked : Node
staked = record new_node { stake = "5"; top_up = "5"; locked = "5" }

get_nodes_infos_for_provider-total_example :
    ((get_nodes_infos_for_provider parts (staked ∷ new_node ∷ [])).num_nodes
      ≡ total_of (λ n. 1) (staked ∷ new_node ∷ []))
    × ((get_nodes_infos_for_provider parts (staked ∷ new_node ∷ [])).stake
        ≡ total_of (λ (n : Node). parts.big_int n.stake) (staked ∷ new_node ∷ []))
    × ((get_nodes_infos_for_provider parts (staked ∷ new_node ∷ [])).top_up
        ≡ total_of (λ (n : Node). parts.big_int n.top_up) (staked ∷ new_node ∷ []))
    × ((get_nodes_infos_for_provider parts (staked ∷ new_node ∷ [])).locked
        ≡ total_of (λ (n : Node). parts.big_int n.locked) (staked ∷ new_node ∷ []))
get_nodes_infos_for_provider-total_example =
    get_nodes_infos_for_provider-total parts (staked ∷ new_node ∷ [])
