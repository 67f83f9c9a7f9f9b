-- ===== src/Nodes/Tests.antt =====
-- Runs of the node service on small lists, and the properties at inputs of their own.
use Prim.Native.Nat.{min}
use api_elrond_com.Common.{
  ◌-◌, ◌≡◌, ◌↔◌, inl, inr, refl, String, true, false, Option, none, some, List, [], ◌∷◌, ◌++◌, map,
  all, length, get_elem?, contains, IsDistinct, string_eq, ◌==◌, is_truthy, if◌then◌else◌, eq_iff,
  bool_eq, All, subst, sym, Bool-cases, arith,
}
use api_elrond_com.Nodes.{
  NodeType, NodeStatus, Node, new_node, Queue, AuctionNode, Auction, find_node,
}
use api_elrond_com.Nodes.Assemble.{process_queued_nodes}
use api_elrond_com.Nodes.Assemble.Queued.{find_node-queued}
use api_elrond_com.Nodes.Assemble.Auctions.{auctioned_node, auctioned_node_last}
use api_elrond_com.Nodes.Filter.{NodeFilter, Texts, node_matches, get_nodes, get_node_count}
use api_elrond_com.Nodes.Filter.Matches.{Matches, node_matches_iff}
use api_elrond_com.Nodes.Filter.Pages.{IsSort, get_nodes_page}
use api_elrond_com.Nodes.Owners.{Contract, get_owners, get_queue, get_bls_owner, get_owner_blses}
use api_elrond_com.Nodes.Owners.Consistent.{IsConsistent, AreOwners, get_owners-IsConsistent}
use api_elrond_com.Nodes.Owners.Positions.{Entry, item_at, get_queue-flatten}
use api_elrond_com.Nodes.Heartbeat.{Library, Item, no_item, key_of}
use api_elrond_com.Nodes.All.{Sources, node_keys, get_all_nodes_raw}
use api_elrond_com.Nodes.All.Keys.{MakesDistinct, add_keys, get_all_nodes_raw-keys}

abbrev node_a : Node
node_a = record new_node {
  bls = "a";
  name = some "first";
  type = some NodeType.validator;
  online = true;
}

abbrev node_b : Node
node_b = record new_node { bls = "b"; type = some NodeType.observer }

abbrev queue_b : Queue
queue_b = record { bls = "b"; nonce = 7; rewards_address = "r"; position = 1 }

abbrev queue_c : Queue
queue_c = record { bls = "c"; nonce = 8; rewards_address = "r"; position = 2 }

queued_keys :
    node_keys (process_queued_nodes (node_a ∷ node_b ∷ []) (queue_b ∷ queue_c ∷ []))
    ≡ "a" ∷ "b" ∷ "c" ∷ []
unfolding process_queued_nodes
queued_keys = refl

find_node-queued_example :
    (node : Node) × (find_node "b"
        (process_queued_nodes (node_a ∷ node_b ∷ []) ([] ++ queue_b ∷ queue_c ∷ []))
      ≡ some node)
    × (node.type ≡ some NodeType.validator)
    × (node.status ≡ some NodeStatus.queued)
    × (node.position ≡ 1)
find_node-queued_example = find_node-queued [] queue_b (queue_c ∷ []) (node_a ∷ node_b ∷ []) refl

abbrev entry_b : AuctionNode
entry_b = record { bls_key = "b"; selected = false }

abbrev entry_a : AuctionNode
entry_a = record { bls_key = "a"; selected = true }

abbrev two_auctions : List Auction
two_auctions =
    record { qualified_top_up = "5"; auction_list = entry_b ∷ [] }
    ∷ record { qualified_top_up = "4"; auction_list = entry_a ∷ [] }
    ∷ []

auctioned_node_last_example :
    ((auctioned_node two_auctions node_a).auctioned ≡ some true)
    × ((auctioned_node two_auctions node_a).auction_position ≡ some 2)
    × ((auctioned_node two_auctions node_a).auction_top_up ≡ some "4")
    × ((auctioned_node two_auctions node_a).auction_selected ≡ some true)
auctioned_node_last_example =
    auctioned_node_last two_auctions node_a (record { top_up = "5"; entry = entry_b } ∷ [])
      (record { top_up = "4"; entry = entry_a }) [] refl refl refl

-- Texts that are lower case already, and a `sort` that leaves the list.
abbrev plain : Texts
plain = record {
  lower = λ s. s;
  greater = λ s t. false;
  to_number = λ s. 0;
  temp_rating = λ n. none;
  sort = λ cmp nodes. nodes;
}

plain-IsSort : IsSort plain
plain-IsSort = record { length-sort = λ cmp nodes. refl; all-sort = λ p cmp nodes. refl }

abbrev any_node : NodeFilter
any_node = record {
  search = none;
  online = none;
  type = none;
  status = none;
  shard = none;
  issues = none;
  identity = none;
  provider = none;
  owner = none;
  auctioned = none;
  full_history = none;
  sort = none;
  order = none;
}

abbrev online_first : NodeFilter
online_first = record any_node { search = some "irs"; online = some true }

online_first-page :
    map (λ (n : Node). n.bls) (get_nodes plain (node_b ∷ node_a ∷ []) 0 5 online_first) ≡ "a" ∷ []
unfolding get_nodes bool_eq
online_first-page = refl

node_matches_iff_example :
    (node_matches plain online_first node_a ≡ true) ↔ Matches plain online_first node_a
node_matches_iff_example = node_matches_iff plain online_first node_a

get_nodes_page_example :
    (all (node_matches plain online_first) (get_nodes plain (node_b ∷ node_a ∷ []) 0 1 online_first)
      ≡ true)
    × (length (get_nodes plain (node_b ∷ node_a ∷ []) 0 1 online_first)
        ≡ min 1 (get_node_count plain (node_b ∷ node_a ∷ []) online_first - 0))
get_nodes_page_example = get_nodes_page plain plain-IsSort (node_b ∷ node_a ∷ []) 0 1 online_first

-- A contract in which `o` owns the keys `a` and `b`.
abbrev owner_of_key : String → Option String
owner_of_key bls = if bls == "a" then some "o" else if bls == "b" then some "o" else none

abbrev contract : Contract
contract = record {
  query_owner =
      λ bls. if bls == "a" then some ("o" ∷ []) else if bls == "b" then some ("o" ∷ []) else none;
  query_keys_status = λ o. if o == "o" then some ("a" ∷ "staked" ∷ "b" ∷ "staked" ∷ []) else none;
  hex_of_base64 = λ s. s;
  bech32_encode = λ s. s;
  number_of_hex = λ s. 9;
}

owner_is_o : (bls o : String) → owner_of_key bls ≡ some o → "o" ≡ o
owner_is_o bls o e = ground arith

lists_owned : (o : String) → All (λ bls. owner_of_key bls ≡ some o) (get_owner_blses contract o)
unfolding get_owner_blses
lists_owned o = elim (Bool-cases (o == "o")) [
  | inl hit ↦
      subst (λ x. All (λ bls. owner_of_key bls ≡ some x) (get_owner_blses contract x))
        (sym ((eq_iff o "o").0 hit)) (refl, (refl, tt))
  | inr miss ↦ rw (miss, get_owner_blses) tt
]

lists_all :
    (bls : String)
    → owner_of_key bls ≡ some "o"
    → contains (get_owner_blses contract "o") bls ≡ true
unfolding get_owner_blses
lists_all bls e = ground (arith, eq_iff "a" bls, eq_iff "b" bls, eq_iff bls "a", eq_iff bls "b")

contract-IsConsistent : IsConsistent contract owner_of_key
unfolding get_bls_owner
contract-IsConsistent = record {
  answers = λ bls. ground arith;
  truthy = λ bls o e. subst (λ x. is_truthy (some x) ≡ true) (owner_is_o bls o e) refl;
  owned = lists_owned;
  listed = λ bls o e.
      (let same : "o" ≡ o = owner_is_o bls o e in
        subst (λ x. contains (get_owner_blses contract x) bls ≡ true) same
          (lists_all bls (subst (λ x. owner_of_key bls ≡ some x) (sym same) e)));
}

abbrev one_cached : String → Option String
one_cached bls = if bls == "b" then some "o" else none

one_cached_right : (bls o : String) → one_cached bls ≡ some o → owner_of_key bls ≡ some o
one_cached_right bls o h = ground arith

get_owners-IsConsistent_example :
    (written : List (String × String)) × (get_owners contract one_cached ("a" ∷ "b" ∷ "z" ∷ [])
      ≡ some (some "o" ∷ some "o" ∷ none ∷ [], written))
    × AreOwners owner_of_key written
get_owners-IsConsistent_example =
    get_owners-IsConsistent contract owner_of_key contract-IsConsistent one_cached
      ("a" ∷ "b" ∷ "z" ∷ []) one_cached_right

abbrev entry_1 : Entry
entry_1 = record { key = "c"; rewards = "r"; nonce = "9" }

abbrev entry_2 : Entry
entry_2 = record { key = "d"; rewards = "r"; nonce = "9" }

get_queue-flatten_example :
    (items : List Queue) × (get_queue contract (some ("c" ∷ "r" ∷ "9" ∷ "d" ∷ "r" ∷ "9" ∷ []))
      ≡ some items)
    × (length items ≡ 2)
    × (get_elem? items 1 ≡ some (item_at contract 2 entry_2))
get_queue-flatten_example = get_queue-flatten contract (entry_1 ∷ entry_2 ∷ []) 1 entry_2 refl

keep_last : List String → List String
keep_last [] = []
keep_last (x ∷ xs) = if contains (keep_last xs) x then keep_last xs else x ∷ keep_last xs

keep_last-MakesDistinct : MakesDistinct keep_last
unfolding keep_last
keep_last-MakesDistinct [] = tt
keep_last-MakesDistinct (x ∷ xs) = ground (arith, keep_last-MakesDistinct xs)

abbrev library : Library
library = record { lower = λ s. s; distinct = keep_last }

abbrev beats : List (String × Item)
beats = ("a", no_item) ∷ ("b", no_item) ∷ []

abbrev statistics : List (String × Item)
statistics = ("a", no_item) ∷ []

abbrev sources : Sources
sources = record {
  library = library;
  contract = contract;
  latest_version = none;
  heartbeats = beats;
  statistics = statistics;
  queue = some ("b" ∷ "r" ∷ "9" ∷ "c" ∷ "r" ∷ "9" ∷ []);
  cached_owner = one_cached;
  keybases = none;
  providers = [];
  stakes = λ addresses. [];
  auctions = none;
}

abbrev two_items : List Queue
two_items =
    record { bls = "b"; nonce = 9; rewards_address = "r"; position = 1 }
    ∷ record { bls = "c"; nonce = 9; rewards_address = "r"; position = 2 }
    ∷ []

queue_read : get_queue contract (sources.queue) ≡ some two_items
unfolding get_queue
queue_read = refl

get_all_nodes_raw-keys_example :
    (nodes : List Node) × (get_all_nodes_raw sources ≡ some nodes)
    × (node_keys nodes
        ≡ add_keys
            (keep_last (map (key_of library) statistics ++ map (key_of library) beats))
            two_items)
    × IsDistinct (node_keys nodes)
get_all_nodes_raw-keys_example =
    get_all_nodes_raw-keys sources owner_of_key contract-IsConsistent one_cached_right
      keep_last-MakesDistinct two_items queue_read
