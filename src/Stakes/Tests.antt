-- ===== src/Stakes/Tests.antt =====
-- Answers of the contract read, and the properties at inputs of their own.
use api_elrond_com.Common.{
  ℕ, ◌-◌, ◌≡◌, refl, none, some, [], ◌∷◌, string_eq, ◌==◌, if◌then◌else◌, arith,
}
use api_elrond_com.Nodes.{NodeType, NodeStatus, Node, new_node}
use api_elrond_com.Stakes.{pos, StakeTopup, Decoders, get_all_stakes_for_address_nodes_raw}
use api_elrond_com.Stakes.Shares.{IsShare, get_all_stakes-IsShare}

abbrev decoders : Decoders
decoders = record {
  number = λ s. if s == "s" then 17 else if s == "t" then 5 else if s == "n" then 2 else 0;
  hex = λ s. s;
}

-- Where something is staked on no nodes, the division throws.
no_nodes_throws :
    get_all_stakes_for_address_nodes_raw decoders "x" (some ("t" ∷ "s" ∷ "z" ∷ [])) ≡ none
unfolding get_all_stakes_for_address_nodes_raw
no_nodes_throws = refl

get_all_stakes-IsShare_example :
    (s : StakeTopup) × (share : ℕ) × (get_all_stakes_for_address_nodes_raw decoders "x"
        (some ("t" ∷ "s" ∷ "n" ∷ "k" ∷ []))
      ≡ some s)
    × (s.stake ≡ pos share)
    × (s.num_nodes ≡ 2)
    × IsShare s.top_up s.num_nodes 5
    × IsShare share s.num_nodes (17 - 5)
    × IsShare s.locked s.num_nodes 17
get_all_stakes-IsShare_example =
    get_all_stakes-IsShare decoders "x" "t" "s" "n" ("k" ∷ []) (omega arith) (omega arith)

abbrev eligible_node : Node
eligible_node = record new_node {
  bls = "a";
  type = some NodeType.validator;
  status = some NodeStatus.eligible;
}
