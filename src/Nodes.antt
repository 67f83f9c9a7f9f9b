-- ===== src/Nodes.antt =====
-- The entities of src/endpoints/nodes/entities and src/endpoints/stake/entities that the node service
-- works on.
pub mod Assemble
pub mod Filter
pub mod Owners
pub mod Heartbeat
pub mod All
mod Tests
use api_elrond_com.Common.{
  ℕ, String, Bool, true, false, Option, none, some, List, [], ◌∷◌, Eq, eq_of_discrete, option_eq,
  string_eq, ◌==◌, string_discrete, find?, if◌then◌else◌,
}

pub data NodeType : Type 0 where
  observer validator : NodeType

-- A status comes as text from the heartbeat: `other` is a text that the enum does not name.
pub data NodeStatus : Type 0 where
  new unknown waiting eligible jailed queued leaving inactive : NodeStatus
  other : String → NodeStatus

pub NodeType-discrete : Discrete NodeType
NodeType-discrete = hlevel

pub NodeStatus-discrete : Discrete NodeStatus
NodeStatus-discrete = hlevel string_discrete

instance abbrev pub node_type_eq : Eq NodeType
node_type_eq = eq_of_discrete NodeType-discrete

instance abbrev pub node_status_eq : Eq NodeStatus
node_status_eq = eq_of_discrete NodeStatus-discrete

-- The ratings and the synchronisation progress, which are floating-point numbers that the service
-- only passes on, are left out; so is what the rating's modifier has behind its point. `undefined` is
-- `none`.
pub record Node : Type 0 where
  pub bls : String
  pub name : Option String
  pub version : Option String
  pub rating_modifier : ℕ
  pub shard : Option ℕ
  pub type : Option NodeType
  pub status : Option NodeStatus
  pub online : Bool
  pub nonce : Option ℕ
  pub instances : Option ℕ
  pub owner : Option String
  pub identity : Option String
  pub provider : String
  pub issues : List String
  pub stake : String
  pub top_up : String
  pub locked : String
  pub leader_failure : Option ℕ
  pub leader_success : Option ℕ
  pub validator_failure : Option ℕ
  pub validator_ignored_signatures : Option ℕ
  pub validator_success : Option ℕ
  pub position : ℕ
  pub auctioned : Option Bool
  pub auction_position : Option ℕ
  pub auction_top_up : Option String
  pub auction_selected : Option Bool
  pub full_history : Option Bool

-- `new Node()`
abbrev pub new_node : Node
new_node = record {
  bls = "";
  name = some "";
  version = some "";
  rating_modifier = 0;
  shard = none;
  type = none;
  status = none;
  online = false;
  nonce = some 0;
  instances = some 0;
  owner = some "";
  identity = none;
  provider = "";
  issues = [];
  stake = "";
  top_up = "";
  locked = "";
  leader_failure = some 0;
  leader_success = some 0;
  validator_failure = some 0;
  validator_ignored_signatures = some 0;
  validator_success = some 0;
  position = 0;
  auctioned = none;
  auction_position = none;
  auction_top_up = none;
  auction_selected = none;
  full_history = none;
}

pub record Queue : Type 0 where
  pub bls : String
  pub nonce : ℕ
  pub rewards_address : String
  pub position : ℕ

pub record AuctionNode : Type 0 where
  pub bls_key : String
  pub selected : Bool

pub record Auction : Type 0 where
  pub qualified_top_up : String
  pub auction_list : List AuctionNode

pub record KeybaseState : Type 0 where
  pub identity : Option String
  pub confirmed : Bool

-- Of a provider, what the node service reads.
pub record Provider : Type 0 where
  pub provider : String
  pub owner : Option String
  pub identity : Option String

pub record Stake : Type 0 where
  pub bls : String
  pub stake : String
  pub top_up : String
  pub locked : String
  pub address : String

abbrev pub new_stake : Stake
new_stake = record { bls = ""; stake = "0"; top_up = "0"; locked = "0"; address = "" }

abbrev pub is_validator : Node → Bool
is_validator node = node.type == some NodeType.validator

abbrev pub has_bls : String → Node → Bool
has_bls bls node = node.bls == bls

-- `nodes.find(node => node.bls === bls)`
abbrev pub find_node : String → List Node → Option Node
find_node bls nodes = find? (has_bls bls) nodes

-- A change to the first node with the key, in place.
abbrev pub update_node : String → (Node → Node) → List Node → List Node
update_node bls f [] = []
update_node bls f (node ∷ nodes) =
    if node.bls == bls then f node ∷ nodes else node ∷ update_node bls f nodes
