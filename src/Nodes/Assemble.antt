-- ===== src/Nodes/Assemble.antt =====
-- How the list of nodes is put together: `processQueuedNodes`, `getNodesIdentities`,
-- `getNodesOwnerAndProvider`, `getNodesStakeDetails` and `processAuctions` of
-- src/endpoints/nodes/node.service.ts.
pub mod Queued
pub mod Auctions
use api_elrond_com.Common.{
  ℕ, suc, ◌+◌, String, Bool, true, false, Option, none, some, List, [], ◌∷◌, ◌++◌, map, filter,
  find?, option_eq, string_eq, ◌==◌, is_truthy, if◌then◌else◌,
}
use api_elrond_com.Nodes.{
  NodeType, NodeStatus, node_type_eq, node_status_eq, Node, new_node, Queue, AuctionNode, Auction,
  KeybaseState, Provider, Stake, new_stake, is_validator, find_node, update_node,
}

abbrev pub queue_node : Queue → Node → Node
queue_node item node = record node {
  type = some NodeType.validator;
  status = some NodeStatus.queued;
  position = item.position;
}

-- The node that is pushed for a key that no node has.
abbrev pub node_of_queue : Queue → Node
node_of_queue item = queue_node item (record new_node { bls = item.bls })

unfoldable pub process_queue_item : List Node → Queue → List Node
process_queue_item nodes item = elim (find_node item.bls nodes) [
  | some node ↦ update_node item.bls (queue_node item) nodes
  | none ↦ nodes ++ node_of_queue item ∷ []
]

unfoldable pub process_queued_nodes : List Node → List Queue → List Node
unfolding process_queue_item
process_queued_nodes nodes [] = nodes
process_queued_nodes nodes (item ∷ queue) =
    process_queued_nodes (process_queue_item nodes item) queue

-- The identity that the keybase confirms for a key.
abbrev pub confirmed_identity : (String → Option KeybaseState) → String → Option String
confirmed_identity keybases bls = elim (keybases bls) [
  | none ↦ none
  | some state ↦ if state.confirmed then state.identity else none
]

abbrev pub with_identity : (String → Option KeybaseState) → Node → Node
with_identity keybases node = record node { identity = confirmed_identity keybases node.bls }

unfoldable pub get_nodes_identities : Option (String → Option KeybaseState) → List Node → List Node
get_nodes_identities none nodes = nodes
get_nodes_identities (some keybases) nodes = map (with_identity keybases) nodes

-- The loop over the keys: the owner goes to the first node with the key.
unfoldable pub set_owners : List (String × Option String) → List Node → List Node
set_owners [] nodes = nodes
set_owners ((bls, owner) ∷ rest) nodes =
    set_owners rest (update_node bls (λ (node : Node). record node { owner = owner }) nodes)

abbrev pub or_empty : Option String → Option String
or_empty none = some ""
or_empty (some s) = some s

unfoldable pub with_provider : List Provider → Node → Node
with_provider providers node =
    elim (find? (λ (p : Provider). some p.provider == node.owner) providers) [
      | none ↦ node
      | some p ↦
          let owned = record node { provider = p.provider; owner = or_empty p.owner } in
          let named = record owned { identity = p.identity } in
          if is_truthy p.identity then named else owned
    ]

unfoldable pub set_providers : List Provider → List Node → List Node
unfolding with_provider
set_providers providers [] = []
set_providers providers (node ∷ nodes) =
    (if is_validator node then with_provider providers node else node)
    ∷ set_providers providers nodes

-- `provider ? provider : owner`
abbrev pub stake_address : Node → Option String
stake_address node = if is_truthy (some node.provider) then some node.provider else node.owner

unfoldable pub stake_addresses : List Node → List (Option String)
stake_addresses nodes = map stake_address (filter is_validator nodes)

abbrev pub or_new_stake : Option Stake → Stake
or_new_stake none = new_stake
or_new_stake (some s) = s

-- A jailed node takes the first stake of its address; any other takes its own key's.
unfoldable pub stake_of : List Stake → Node → Stake
stake_of stakes node =
    if node.status == some NodeStatus.jailed
    then or_new_stake (find? (λ (s : Stake). some s.address == stake_address node) stakes)
    else or_new_stake (find? (λ (s : Stake). s.bls == node.bls) stakes)

unfoldable pub with_stake : List Stake → Node → Node
unfolding stake_of
with_stake stakes node =
    let s = stake_of stakes node in
    if is_validator node
    then record node { stake = s.stake; top_up = s.top_up; locked = s.locked }
    else node

unfoldable pub get_nodes_stake_details : List Stake → List Node → List Node
unfolding with_stake
get_nodes_stake_details stakes nodes = map (with_stake stakes) nodes

-- What a node becomes at an entry of an auction list with its key.
abbrev pub auction_node : String → AuctionNode → ℕ → Node → Node
auction_node top_up entry position node = record node {
  auctioned = some true;
  auction_position = some position;
  auction_top_up = some top_up;
  auction_selected = some entry.selected;
}

-- The inner loop over one auction list; the position goes on from list to list.
unfoldable pub visit_auction_list : String → List AuctionNode → ℕ × Node → ℕ × Node
visit_auction_list top_up [] s = s
visit_auction_list top_up (entry ∷ entries) (position, node) = visit_auction_list top_up entries (
  position + 1,
  if node.bls == entry.bls_key then auction_node top_up entry position node else node,
)

unfoldable pub visit_auctions : List Auction → ℕ × Node → ℕ × Node
unfolding visit_auction_list
visit_auctions [] s = s
visit_auctions (auction ∷ auctions) s =
    visit_auctions auctions (visit_auction_list auction.qualified_top_up auction.auction_list s)

unfoldable pub process_auctions : List Auction → List Node → List Node
unfolding visit_auctions
process_auctions auctions nodes = map (λ node. (visit_auctions auctions (1, node)).1) nodes
