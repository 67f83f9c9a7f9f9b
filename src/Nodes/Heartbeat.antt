-- ===== src/Nodes/Heartbeat.antt =====
-- The nodes that the heartbeats and the validator statistics tell of: `getHeartbeat` of
-- src/endpoints/nodes/node.service.ts.
use api_elrond_com.Common.{
  ℕ, String, Bool, true, false, Option, none, some, List, [], ◌∷◌, ◌++◌, map, take, option_eq,
  string_eq, nat_eq, ◌==◌, is_truthy, includes, split, if◌then◌else◌, ◌+text◌,
}
use api_elrond_com.Nodes.{NodeType, NodeStatus, Node, new_node}
use api_elrond_com.Nodes.Filter.{get_issues}

-- The fields of a heartbeat or of a key's statistics; those that are not sent are `none`.
pub record Item : Type 0 where
  pub node_display_name : Option String
  pub version_number : Option String
  pub identity : Option String
  pub rating_modifier : Option ℕ
  pub num_leader_success : Option ℕ
  pub num_leader_failure : Option ℕ
  pub num_validator_success : Option ℕ
  pub num_validator_failure : Option ℕ
  pub num_validator_ignored_signatures : Option ℕ
  pub received_shard : Option ℕ
  pub computed_shard : Option ℕ
  pub shard_id : Option ℕ
  pub peer_type : Option String
  pub peer_sub_type : Option ℕ
  pub is_active : Option Bool
  pub validator_status : Option String
  pub nonce : Option ℕ
  pub num_instances : Option ℕ

abbrev pub no_item : Item
no_item = record {
  node_display_name = none;
  version_number = none;
  identity = none;
  rating_modifier = none;
  num_leader_success = none;
  num_leader_failure = none;
  num_validator_success = none;
  num_validator_failure = none;
  num_validator_ignored_signatures = none;
  received_shard = none;
  computed_shard = none;
  shard_id = none;
  peer_type = none;
  peer_sub_type = none;
  is_active = none;
  validator_status = none;
  nonce = none;
  num_instances = none;
}

abbrev pub or_else {ℓ} : {A : Type ℓ} → Option A → Option A → Option A
or_else none y = y
or_else (some x) y = some x

-- `{ ...heartbeat, ...statistic }`: the statistics come first.
unfoldable pub merge : Item → Item → Item
merge heartbeat statistic = record {
  node_display_name = or_else statistic.node_display_name heartbeat.node_display_name;
  version_number = or_else statistic.version_number heartbeat.version_number;
  identity = or_else statistic.identity heartbeat.identity;
  rating_modifier = or_else statistic.rating_modifier heartbeat.rating_modifier;
  num_leader_success = or_else statistic.num_leader_success heartbeat.num_leader_success;
  num_leader_failure = or_else statistic.num_leader_failure heartbeat.num_leader_failure;
  num_validator_success = or_else statistic.num_validator_success heartbeat.num_validator_success;
  num_validator_failure = or_else statistic.num_validator_failure heartbeat.num_validator_failure;
  num_validator_ignored_signatures =
      or_else statistic.num_validator_ignored_signatures heartbeat.num_validator_ignored_signatures;
  received_shard = or_else statistic.received_shard heartbeat.received_shard;
  computed_shard = or_else statistic.computed_shard heartbeat.computed_shard;
  shard_id = or_else statistic.shard_id heartbeat.shard_id;
  peer_type = or_else statistic.peer_type heartbeat.peer_type;
  peer_sub_type = or_else statistic.peer_sub_type heartbeat.peer_sub_type;
  is_active = or_else statistic.is_active heartbeat.is_active;
  validator_status = or_else statistic.validator_status heartbeat.validator_status;
  nonce = or_else statistic.nonce heartbeat.nonce;
  num_instances = or_else statistic.num_instances heartbeat.num_instances;
}

abbrev pub status_of_text : String → NodeStatus
status_of_text s =
    if s == "new"
    then NodeStatus.new
    else if s == "unknown"
    then NodeStatus.unknown
    else if s == "waiting"
    then NodeStatus.waiting
    else if s == "eligible"
    then NodeStatus.eligible
    else if s == "jailed"
    then NodeStatus.jailed
    else if s == "queued"
    then NodeStatus.queued
    else if s == "leaving"
    then NodeStatus.leaving
    else if s == "inactive"
    then NodeStatus.inactive
    else NodeStatus.other s

abbrev pub status_of : Option String → Option NodeStatus
status_of none = none
status_of (some s) = some (status_of_text s)

abbrev pub says_leaving : Option String → Bool
says_leaving none = false
says_leaving (some s) = includes s "leaving"

-- The type and the status, from `validatorStatus` and `peerType`.
unfoldable pub node_kind : Option String → Option String → NodeType × Option NodeStatus
node_kind validator_status peer_type =
    if validator_status == some "new"
    then (NodeType.validator, some NodeStatus.new)
    else if validator_status == some "jailed"
    then (NodeType.validator, some NodeStatus.jailed)
    else if says_leaving validator_status
    then (NodeType.validator, some NodeStatus.leaving)
    else if validator_status == some "inactive"
    then (NodeType.validator, some NodeStatus.inactive)
    else if peer_type == some "observer"
    then (NodeType.observer, none)
    else (
      NodeType.validator,
      status_of (if is_truthy peer_type then peer_type else validator_status),
    )

-- The shard, by `peerType` where `shardId` is not sent.
abbrev pub shard_of : Item → Option ℕ
shard_of item = elim (item.shard_id) [
  | some shard ↦ some shard
  | none ↦ if item.peer_type == some "observer" then item.received_shard else item.computed_shard
]

-- `['queued', 'jailed'].includes(peerType)`
abbrev pub has_no_shard : Option String → Bool
has_no_shard peer_type =
    let queued = peer_type == some "queued" in if queued then true else peer_type == some "jailed"

abbrev pub first_or_empty : List String → String
first_or_empty [] = ""
first_or_empty (s ∷ rest) = s

-- `join('-')`
abbrev pub join_dash : List String → String
join_dash [] = ""
join_dash (s ∷ []) = s
join_dash (s ∷ t ∷ rest) = (s +text "-") +text join_dash (t ∷ rest)

-- 45 is `-` and 47 is `/`.
unfoldable pub trim_version : Option String → String
unfolding split
trim_version none = ""
trim_version (some version) =
    let dashed = split 45 version in
    if version == ""
    then ""
    else if includes version "-rc"
    then first_or_empty (split 47 (join_dash (take 2 dashed)))
    else first_or_empty (split 47 (first_or_empty dashed))

abbrev pub or_zero : Option ℕ → ℕ
or_zero none = 0
or_zero (some n) = n

abbrev pub or_false : Option Bool → Bool
or_false none = false
or_false (some b) = b

-- What is looked up for a key, `{}` where there is nothing.
abbrev pub item_of : String → List (String × Item) → Item
item_of bls [] = no_item
item_of bls ((key, item) ∷ rest) = if key == bls then item else item_of bls rest

-- `toLowerCase`, and `distinct` of the package `@multiversx/sdk-nestjs`.
pub record Library : Type 0 where
  pub lower : String → String
  pub distinct : List String → List String

module _ (library : Library) where
  abbrev pub lower_identity : Option String → Option String
  lower_identity none = none
  lower_identity (some s) = some (if s == "" then s else library.lower s)

  -- The node of a key and its merged item; `latest` is the network's software version.
  unfoldable pub node_of_item : Option String → String → Item → Node
  unfolding node_kind trim_version get_issues
  node_of_item latest bls item =
      let kind = node_kind item.validator_status item.peer_type in
      let version = trim_version item.version_number in
      record new_node {
        bls = bls;
        name = item.node_display_name;
        version = some version;
        identity = lower_identity item.identity;
        rating_modifier = or_zero item.rating_modifier;
        full_history = if item.peer_sub_type == some 1 then some true else none;
        shard = if has_no_shard item.peer_type then none else shard_of item;
        type = some (kind.0);
        status = kind.1;
        online = or_false item.is_active;
        nonce = item.nonce;
        instances = item.num_instances;
        leader_failure = item.num_leader_failure;
        leader_success = item.num_leader_success;
        validator_failure = item.num_validator_failure;
        validator_ignored_signatures = item.num_validator_ignored_signatures;
        validator_success = item.num_validator_success;
        issues = get_issues latest (some version);
      }

  abbrev pub key_of : String × Item → String
  key_of (key, item) = key

  unfoldable pub get_heartbeat :
      Option String → List (String × Item) → List (String × Item) → List Node
  unfolding node_of_item merge
  get_heartbeat latest heartbeats statistics =
      map (λ bls. node_of_item latest bls (merge (item_of bls heartbeats) (item_of bls statistics)))
        (library.distinct (map key_of statistics ++ map key_of heartbeats))
