-- ===== src/Nodes/Filter.antt =====
-- Filtering, sorting and paging of nodes: `getFilteredNodes`, `getNodes`, `getNodeCount`, `getNode` and
-- `getIssues` of src/endpoints/nodes/node.service.ts.
pub mod Matches
pub mod Pages
use mathlib.Core.List.{reverse}
use api_elrond_com.Common.{
  ℕ, ◌+◌, String, Bool, true, false, not, ◌&&◌, ◌||◌, Option, none, some, List, [], ◌∷◌, filter,
  length, take, drop, includes, is_truthy, ltb, Eq, bool_eq, nat_eq, option_eq, string_eq, ◌==◌,
  if◌then◌else◌,
}
use api_elrond_com.Nodes.{NodeType, NodeStatus, node_type_eq, node_status_eq, Node, find_node}

pub data NodeSort : Type 0 where
  name version temp_rating leader_success leader_failure validator_success validator_failure :
      NodeSort
  validator_ignored_signatures position auction_position locked : NodeSort

pub data SortOrder : Type 0 where
  asc desc : SortOrder

pub record NodeFilter : Type 0 where
  pub search : Option String
  pub online : Option Bool
  pub type : Option NodeType
  pub status : Option NodeStatus
  pub shard : Option ℕ
  pub issues : Option Bool
  pub identity : Option String
  pub provider : Option String
  pub owner : Option String
  pub auctioned : Option Bool
  pub full_history : Option Bool
  pub sort : Option NodeSort
  pub order : Option SortOrder

-- `query.x !== undefined && node.x !== query.x` is no reason to drop the node.
abbrev pub agrees {ℓ} : {A : Type ℓ} ⦃e : Eq A⦄ → Option A → Option A → Bool
agrees none x = true
agrees (some q) x = x == some q

-- The same where an empty text asks for nothing.
abbrev pub agrees_text : Option String → Option String → Bool
agrees_text q x = if is_truthy q then x == q else true

abbrev pub agrees_issues : Option Bool → List String → Bool
agrees_issues none issues = true
agrees_issues (some true) issues = ltb 0 (length issues)
agrees_issues (some false) issues = not (ltb 0 (length issues))

abbrev pub agrees_full_history : Option Bool → Option Bool → Bool
agrees_full_history none x = true
agrees_full_history (some true) x = x == some true
agrees_full_history (some false) x = not (x == some true)

-- A value that nodes are sorted by.
pub data SortValue : Type 0 where
  absent : SortValue
  number : ℕ → SortValue
  text : String → SortValue

pub data Comparison : Type 0 where
  before same after : Comparison

-- `issues.push('versionMismatch')` where a version is wanted and the node has another.
unfoldable pub get_issues : Option String → Option String → List String
get_issues latest node_version =
    if is_truthy latest && not (latest == node_version) then "versionMismatch" ∷ [] else []

unfoldable pub get_node : String → List Node → Option Node
get_node bls nodes = find_node bls nodes

-- What JavaScript does with texts: lower case, the order of texts, and `Number`; `temp_rating` reads
-- a number that a node's record leaves out.
pub record Texts : Type 0 where
  pub lower : String → String
  pub greater : String → String → Bool
  pub to_number : String → ℕ
  pub temp_rating : Node → Option ℕ
  pub sort : (Node → Node → Comparison) → List Node → List Node

module _ (js : Texts) where
  abbrev pub contains_text : String → Option String → Bool
  contains_text search none = false
  contains_text search (some s) = not (s == "") && includes (js.lower s) (js.lower search)

  abbrev pub agrees_search : Option String → Node → Bool
  agrees_search none node = true
  agrees_search (some search) node =
      contains_text search (some node.bls)
      || (contains_text search node.name || contains_text search node.version)

  unfoldable pub node_matches : NodeFilter → Node → Bool
  node_matches query node =
      agrees_search query.search node
      && (agrees query.online (some node.online)
          && (agrees query.type node.type
              && (agrees query.status node.status
                  && (agrees query.shard node.shard
                      && (agrees_issues query.issues node.issues
                          && (agrees_text query.identity node.identity
                              && (agrees_text query.provider (some node.provider)
                                  && (agrees_text query.owner node.owner
                                      && (agrees query.auctioned node.auctioned
                                          && agrees_full_history query.full_history
                                              node.full_history)))))))))

  abbrev pub of_number : Option ℕ → SortValue
  of_number none = absent
  of_number (some n) = number n

  -- A text that is not empty is compared in lower case.
  abbrev pub of_text : Option String → SortValue
  of_text none = absent
  of_text (some s) = text (if s == "" then s else js.lower s)

  -- `a[query.sort]`, with `Number` of the locked amount.
  unfoldable pub sort_value : NodeSort → Node → SortValue
  sort_value NodeSort.name node = of_text node.name
  sort_value NodeSort.version node = of_text node.version
  sort_value NodeSort.temp_rating node = of_number (js.temp_rating node)
  sort_value NodeSort.leader_success node = of_number node.leader_success
  sort_value NodeSort.leader_failure node = of_number node.leader_failure
  sort_value NodeSort.validator_success node = of_number node.validator_success
  sort_value NodeSort.validator_failure node = of_number node.validator_failure
  sort_value NodeSort.validator_ignored_signatures node =
      of_number node.validator_ignored_signatures
  sort_value NodeSort.position node = number node.position
  sort_value NodeSort.auction_position node = of_number node.auction_position
  sort_value NodeSort.locked node = number (js.to_number node.locked)

  -- `asort > bsort`: false where one of them is undefined.
  abbrev pub is_greater : SortValue → SortValue → Bool
  is_greater (number a) (number b) = ltb b a
  is_greater (text a) (text b) = js.greater a b
  is_greater _ _ = false

  unfoldable pub compare_nodes : NodeSort → Node → Node → Comparison
  unfolding sort_value
  compare_nodes sort a b =
      if is_greater (sort_value sort a) (sort_value sort b)
      then after
      else if is_greater (sort_value sort b) (sort_value sort a)
      then before
      else same

  abbrev pub is_desc : Option SortOrder → Bool
  is_desc (some SortOrder.desc) = true
  is_desc _ = false

  unfoldable pub sort_nodes : NodeFilter → List Node → List Node
  sort_nodes query nodes = elim (query.sort) [
    | none ↦ nodes
    | some s ↦
        let sorted = js.sort (compare_nodes s) nodes in
        if is_desc query.order then reverse sorted else sorted
  ]

  unfoldable pub get_filtered_nodes : List Node → NodeFilter → List Node
  unfolding node_matches sort_nodes
  get_filtered_nodes nodes query = sort_nodes query (filter (node_matches query) nodes)

  unfoldable pub get_node_count : List Node → NodeFilter → ℕ
  unfolding get_filtered_nodes
  get_node_count nodes query = length (get_filtered_nodes nodes query)

  -- `filteredNodes.slice(from, from + size)`
  unfoldable pub get_nodes : List Node → ℕ → ℕ → NodeFilter → List Node
  unfolding get_filtered_nodes
  get_nodes nodes from size query = take size (drop from (get_filtered_nodes nodes query))
