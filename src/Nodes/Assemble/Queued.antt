-- ===== src/Nodes/Assemble/Queued.antt =====
-- What the queue makes of the list of nodes.
use api_elrond_com.Common.{
  ◌≡◌, refl, ◌∙◌, ap, String, Bool, true, Option, none, some, List, [], ◌∷◌, ◌++◌, find?, option_eq,
  string_eq, ◌==◌, eq_iff, if◌then◌else◌, Bool-cases, arith, inl, inr,
}
use api_elrond_com.Nodes.{NodeType, NodeStatus, Node, Queue, find_node, update_node}
use api_elrond_com.Nodes.Assemble.{
  queue_node, node_of_queue, process_queue_item, process_queued_nodes,
}

-- The node with a key after one queue item with this key, and after a whole queue.
abbrev queued : Queue → Option Node → Node
queued item none = node_of_queue item
queued item (some node) = queue_node item node

abbrev after_item : String → Queue → Option Node → Option Node
after_item key item o = if item.bls == key then some (queued item o) else o

abbrev after_queue : String → List Queue → Option Node → Option Node
after_queue key [] o = o
after_queue key (item ∷ queue) o = after_queue key queue (after_item key item o)

-- No item of the queue has the key.
abbrev pub find_item : String → List Queue → Option Queue
find_item key queue = find? (λ (item : Queue). item.bls == key) queue

find_node-update_node :
    (item : Queue) (key : String) (nodes : List Node)
    → find_node key (update_node item.bls (queue_node item) nodes) ≡ (
        if item.bls == key
        then (elim (find_node key nodes) [ none ↦ none | some n ↦ some (queue_node item n) ])
        else find_node key nodes)
find_node-update_node item key [] = ground arith
find_node-update_node item key (node ∷ nodes) = ground (
  arith,
  find_node-update_node item key nodes,
  eq_iff node.bls item.bls,
  eq_iff node.bls key,
  eq_iff item.bls key,
)

find_node-append :
    (key : String) (node : Node) (nodes : List Node)
    → find_node key (nodes ++ node ∷ []) ≡ elim (find_node key nodes) [
      | some n ↦ some n
      | none ↦ if node.bls == key then some node else none
    ]
find_node-append key node [] = refl
find_node-append key node (n ∷ nodes) = ground (arith, find_node-append key node nodes)

find_node-process_queue_item :
    (item : Queue) (key : String) (nodes : List Node)
    → find_node key (process_queue_item nodes item) ≡ after_item key item (find_node key nodes)
unfolding process_queue_item
find_node-process_queue_item item key nodes = ground (
  arith,
  find_node-update_node item key nodes,
  find_node-append key (node_of_queue item) nodes,
  eq_iff item.bls key,
)

find_node-process_queued_nodes :
    (key : String) (queue : List Queue) (nodes : List Node)
    → find_node key (process_queued_nodes nodes queue) ≡ after_queue key queue (find_node key nodes)
unfolding process_queued_nodes
find_node-process_queued_nodes key [] nodes = refl
find_node-process_queued_nodes key (item ∷ queue) nodes =
    find_node-process_queued_nodes key queue (process_queue_item nodes item)
    ∙ ap (after_queue key queue) (find_node-process_queue_item item key nodes)

after_queue_absent :
    (key : String) (queue : List Queue) (o : Option Node)
    → find_item key queue ≡ none
    → after_queue key queue o ≡ o
after_queue_absent key [] o h = refl
after_queue_absent key (item ∷ queue) o h = elim (Bool-cases (item.bls == key)) [
  | inl hit ↦ absurd (found_absurd _ _ hit h)
  | inr miss ↦ rw (miss, after_item) (after_queue_absent key queue o (rw miss at h))
]
  where
    found_absurd :
        (b : Bool) (o : Option Queue) → b ≡ true → (if b then some item else o) ≡ none → ⊥
    found_absurd b o hit h = ground arith

-- A node whose key is not in the queue is as it was.
pub find_node_not_queued :
    (key : String) (queue : List Queue) (nodes : List Node)
    → find_item key queue ≡ none
    → find_node key (process_queued_nodes nodes queue) ≡ find_node key nodes
find_node_not_queued key queue nodes h =
    find_node-process_queued_nodes key queue nodes
    ∙ after_queue_absent key queue (find_node key nodes) h

after_queue-append :
    (key : String) (before after : List Queue) (o : Option Node)
    → after_queue key (before ++ after) o ≡ after_queue key after (after_queue key before o)
after_queue-append key [] after o = refl
after_queue-append key (item ∷ before) after o =
    after_queue-append key before after (after_item key item o)

-- A key in the queue has a node afterwards: a queued validator at the position of the key's last item
-- in the queue.
pub find_node-queued :
    (before : List Queue) (item : Queue) (after : List Queue) (nodes : List Node)
    → find_item item.bls after ≡ none
    → (node : Node) × (find_node item.bls (process_queued_nodes nodes (before ++ item ∷ after))
        ≡ some node)
      × (node.type ≡ some NodeType.validator)
      × (node.status ≡ some NodeStatus.queued)
      × (node.position ≡ item.position)
find_node-queued before item after nodes h =
    let o = after_queue item.bls before (find_node item.bls nodes) in
    let hit : (item.bls == item.bls) ≡ true = (eq_iff item.bls item.bls).1 refl in
    let e : find_node item.bls (process_queued_nodes nodes (before ++ item ∷ after))
        ≡ some (queued item o) =
      find_node-process_queued_nodes item.bls (before ++ item ∷ after) nodes
      ∙ after_queue-append item.bls before (item ∷ after) (find_node item.bls nodes)
      ∙ after_queue_absent item.bls after (after_item item.bls item o) h
      ∙ rw hit refl in
    let (t, s, p) = queued_fields item o in (queued item o, e, t, s, p)
  where
    queued_fields :
        (item : Queue) (o : Option Node)
        → ((queued item o).type ≡ some NodeType.validator)
          × ((queued item o).status ≡ some NodeStatus.queued)
          × ((queued item o).position ≡ item.position)
    queued_fields item none = (refl, refl, refl)
    queued_fields item (some node) = (refl, refl, refl)

-- No two nodes have the same key.
abbrev pub HasDistinctKeys : List Node → Type 0
HasDistinctKeys [] = Unit
HasDistinctKeys (node ∷ nodes) = (find_node node.bls nodes ≡ none) × HasDistinctKeys nodes

update_node-HasDistinctKeys :
    (item : Queue) (nodes : List Node)
    → HasDistinctKeys nodes
    → HasDistinctKeys (update_node item.bls (queue_node item) nodes)
update_node-HasDistinctKeys item [] h = tt
update_node-HasDistinctKeys item (node ∷ nodes) (fresh, h) =
    ground
      (arith, update_node-HasDistinctKeys item nodes h, find_node-update_node item node.bls nodes)

append-HasDistinctKeys :
    (node : Node) (nodes : List Node)
    → find_node node.bls nodes ≡ none
    → HasDistinctKeys nodes
    → HasDistinctKeys (nodes ++ node ∷ [])
append-HasDistinctKeys node [] absent h = (refl, tt)
append-HasDistinctKeys node (n ∷ nodes) absent (fresh, h) = ground (
  arith,
  append-HasDistinctKeys node nodes,
  find_node-append n.bls node nodes,
  eq_iff n.bls node.bls,
  eq_iff node.bls n.bls,
)

-- The queue adds no second node with a key that is there.
pub process_queued_nodes-HasDistinctKeys :
    (queue : List Queue) (nodes : List Node)
    → HasDistinctKeys nodes
    → HasDistinctKeys (process_queued_nodes nodes queue)
unfolding process_queued_nodes process_queue_item
process_queued_nodes-HasDistinctKeys [] nodes h = h
process_queued_nodes-HasDistinctKeys (item ∷ queue) nodes h =
    process_queued_nodes-HasDistinctKeys queue (process_queue_item nodes item) (
      ground (
        arith,
        update_node-HasDistinctKeys item nodes h,
        append-HasDistinctKeys (node_of_queue item) nodes,
      ))
