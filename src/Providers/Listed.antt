-- ===== src/Providers/Listed.antt =====
-- Which providers are listed with their stake.
use api_elrond_com.Common.{
  ℕ, ◌+◌, ◌≡◌, Bool, ◌&&◌, some, List, [], ◌∷◌, string_eq, is_truthy, if◌then◌else◌, arith,
}
use api_elrond_com.Nodes.{Node}
use api_elrond_com.Providers.{
  NodesInfos, Parts, add_node_infos, add_nodes_infos, get_nodes_infos_for_provider,
}

-- A node counts if its stake, its top-up and what is locked are texts that are not empty.
abbrev pub counts : Node → Bool
counts node =
    is_truthy (some node.stake) && (is_truthy (some node.top_up) && is_truthy (some node.locked))

abbrev pub total_of : (Node → ℕ) → List Node → ℕ
total_of f [] = 0
total_of f (node ∷ nodes) = (if counts node then f node else 0) + total_of f nodes

module _ (parts : Parts) where
  add_nodes_infos-total :
      (nodes : List Node) (infos : NodesInfos)
      → ((add_nodes_infos parts infos nodes).num_nodes ≡ infos.num_nodes + total_of (λ n. 1) nodes)
        × ((add_nodes_infos parts infos nodes).stake
            ≡ infos.stake + total_of (λ (n : Node). parts.big_int n.stake) nodes)
        × ((add_nodes_infos parts infos nodes).top_up
            ≡ infos.top_up + total_of (λ (n : Node). parts.big_int n.top_up) nodes)
        × ((add_nodes_infos parts infos nodes).locked
            ≡ infos.locked + total_of (λ (n : Node). parts.big_int n.locked) nodes)
  unfolding add_nodes_infos
  add_nodes_infos-total [] infos = (omega arith, omega arith, omega arith, omega arith)
  add_nodes_infos-total (n ∷ nodes) infos =
      ground (arith, add_nodes_infos-total nodes (add_node_infos parts infos n))

  -- The infos of a provider are the sums over those of its nodes that state a stake, a top-up and a
  -- locked amount, each of which is counted.
  pub get_nodes_infos_for_provider-total :
      (nodes : List Node)
      → ((get_nodes_infos_for_provider parts nodes).num_nodes ≡ total_of (λ n. 1) nodes)
        × ((get_nodes_infos_for_provider parts nodes).stake
            ≡ total_of (λ (n : Node). parts.big_int n.stake) nodes)
        × ((get_nodes_infos_for_provider parts nodes).top_up
            ≡ total_of (λ (n : Node). parts.big_int n.top_up) nodes)
        × ((get_nodes_infos_for_provider parts nodes).locked
            ≡ total_of (λ (n : Node). parts.big_int n.locked) nodes)
  unfolding get_nodes_infos_for_provider
  get_nodes_infos_for_provider-total nodes =
      let (a, b, c, d) =
        add_nodes_infos-total nodes (record { num_nodes = 0; stake = 0; top_up = 0; locked = 0 }) in
      (omega (arith, a), omega (arith, b), omega (arith, c), omega (arith, d))
