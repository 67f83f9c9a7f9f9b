-- ===== src/Nodes/All.antt =====
-- The list of all nodes: `getAllNodesRaw` and `getNodesOwnerAndProvider` of
-- src/endpoints/nodes/node.service.ts.
pub mod Keys
use api_elrond_com.Common.{String, Option, none, some, List, [], ◌∷◌, map}
use api_elrond_com.Nodes.{Node, KeybaseState, Provider, Stake, Auction}
use api_elrond_com.Nodes.Assemble.{
  process_queued_nodes, get_nodes_identities, set_owners, set_providers, stake_addresses,
  get_nodes_stake_details, process_auctions,
}
use api_elrond_com.Nodes.Owners.{Contract, get_owners, get_queue}
use api_elrond_com.Nodes.Heartbeat.{Item, Library, get_heartbeat}

-- What the services and the gateway answer.
pub record Sources : Type 0 where
  pub library : Library
  pub contract : Contract
  pub latest_version : Option String
  pub heartbeats : List (String × Item)
  pub statistics : List (String × Item)
  -- The answer to the query of the queue.
  pub queue : Option (List String)
  -- The owners in the cache.
  pub cached_owner : String → Option String
  pub keybases : Option (String → Option KeybaseState)
  pub providers : List Provider
  -- `distinct` and `getStakes` of the addresses.
  pub stakes : List (Option String) → List Stake
  -- The auctions, where staking v4 is enabled.
  pub auctions : Option (List Auction)

-- `blses[index]` and `owners[index]` in step.
abbrev pub zip : List String → List (Option String) → List (String × Option String)
zip [] owners = []
zip (bls ∷ blses) [] = (bls, none) ∷ zip blses []
zip (bls ∷ blses) (owner ∷ owners) = (bls, owner) ∷ zip blses owners

abbrev pub node_keys : List Node → List String
node_keys nodes = map (λ (n : Node). n.bls) nodes

module _ (sources : Sources) where
  unfoldable pub get_nodes_owner_and_provider : List Node → Option (List Node)
  unfolding set_owners set_providers get_owners
  get_nodes_owner_and_provider nodes =
      let blses = node_keys nodes in
      elim (get_owners sources.contract sources.cached_owner blses) [
        | none ↦ none
        | some (owners, written) ↦
            some (set_providers sources.providers (set_owners (zip blses owners) nodes))
      ]

  abbrev pub with_auctions : List Node → List Node
  with_auctions nodes = elim (sources.auctions) [
    | none ↦ nodes
    | some auctions ↦ process_auctions auctions nodes
  ]

  abbrev pub with_stakes : List Node → List Node
  with_stakes nodes = get_nodes_stake_details (sources.stakes (stake_addresses nodes)) nodes

  unfoldable pub get_all_nodes_raw : Option (List Node)
  unfolding get_heartbeat get_queue process_queued_nodes get_nodes_identities
      get_nodes_owner_and_provider get_nodes_stake_details process_auctions
  get_all_nodes_raw = elim (get_queue sources.contract sources.queue) [
    | none ↦ none
    | some queue ↦
        let nodes =
          get_heartbeat sources.library sources.latest_version sources.heartbeats
            sources.statistics in
        let named = get_nodes_identities sources.keybases (process_queued_nodes nodes queue) in
        elim (get_nodes_owner_and_provider named) [
          | none ↦ none
          | some owned ↦ some (with_auctions (with_stakes owned))
        ]
  ]
