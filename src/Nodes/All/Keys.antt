-- ===== src/Nodes/All/Keys.antt =====
-- The keys of the list of all nodes.
use api_elrond_com.Common.{
  ◌≡◌, refl, ap, ◌∙◌, String, true, false, Option, none, some, List, [], ◌∷◌, ◌++◌, map, contains,
  IsDistinct, ◌||◌, string_eq, ◌==◌, eq_iff, Bool-cases, Option-cases, inl, inr, if◌then◌else◌,
  arith,
}
use api_elrond_com.Nodes.{
  Node, Queue, KeybaseState, Provider, Stake, find_node, update_node, is_validator,
}
use api_elrond_com.Nodes.Assemble.{
  queue_node, node_of_queue, process_queue_item, process_queued_nodes, get_nodes_identities,
  set_owners, with_provider, set_providers, with_stake, stake_addresses, get_nodes_stake_details,
  process_auctions,
}
use api_elrond_com.Nodes.Assemble.Auctions.{auctioned_node, auctioned_node-bls}
use api_elrond_com.Nodes.Owners.Consistent.{IsConsistent, get_owners-IsConsistent}
use api_elrond_com.Nodes.Owners.{get_queue}
use api_elrond_com.Nodes.Heartbeat.{
  Item, Library, get_heartbeat, node_of_item, key_of, item_of, merge,
}
use api_elrond_com.Nodes.All.{
  Sources, zip, node_keys, get_nodes_owner_and_provider, with_auctions, with_stakes,
  get_all_nodes_raw,
}

-- What is known of the `distinct` of the package.
abbrev pub MakesDistinct : (List String → List String) → Type 0
MakesDistinct distinct = (xs : List String) → IsDistinct (distinct xs)

-- The keys with one more at the end, where it is not there.
abbrev pub add_key : List String → String → List String
add_key keys key = if contains keys key then keys else keys ++ key ∷ []

abbrev pub add_keys : List String → List Queue → List String
add_keys keys [] = keys
add_keys keys (item ∷ queue) = add_keys (add_key keys item.bls) queue

contains-append :
    (xs : List String) (y x : String) → contains (xs ++ y ∷ []) x ≡ (contains xs x || (y == x))
contains-append [] y x = ground arith
contains-append (z ∷ xs) y x = ground (arith, contains-append xs y x)

append-IsDistinct :
    (xs : List String) (y : String)
    → contains xs y ≡ false
    → IsDistinct xs
    → IsDistinct (xs ++ y ∷ [])
append-IsDistinct [] y absent h = (refl, tt)
append-IsDistinct (x ∷ xs) y absent (fresh, h) =
    ground (arith, append-IsDistinct xs y, contains-append xs y x, eq_iff x y, eq_iff y x)

add_keys-IsDistinct :
    (queue : List Queue) (xs : List String) → IsDistinct xs → IsDistinct (add_keys xs queue)
add_keys-IsDistinct [] xs h = h
add_keys-IsDistinct (item ∷ queue) xs h =
    add_keys-IsDistinct queue (add_key xs item.bls) (elim (Bool-cases (contains xs item.bls)) [
      | inl there ↦ rw there h
      | inr absent ↦ rw absent (append-IsDistinct xs item.bls absent h)
    ])

keys-update_node :
    (key : String) (f : Node → Node) (nodes : List Node)
    → ((n : Node) → (f n).bls ≡ n.bls)
    → node_keys (update_node key f nodes) ≡ node_keys nodes
keys-update_node key f [] h = refl
keys-update_node key f (n ∷ nodes) h = ground (arith, keys-update_node key f nodes h, h n)

keys-map :
    (f : Node → Node) (nodes : List Node)
    → ((n : Node) → (f n).bls ≡ n.bls)
    → node_keys (map f nodes) ≡ node_keys nodes
keys-map f [] h = refl
keys-map f (n ∷ nodes) h = rw (h n, keys-map f nodes h) refl

keys-append :
    (nodes : List Node) (n : Node) → node_keys (nodes ++ n ∷ []) ≡ node_keys nodes ++ n.bls ∷ []
keys-append [] n = refl
keys-append (m ∷ nodes) n = ap (λ ks. m.bls ∷ ks) (keys-append nodes n)

contains-keys :
    (key : String) (nodes : List Node)
    → contains (node_keys nodes) key ≡ (elim (find_node key nodes) [ none ↦ false | some _ ↦ true ])
contains-keys key [] = refl
contains-keys key (n ∷ nodes) = ground (arith, contains-keys key nodes)

keys-process_queue_item :
    (nodes : List Node) (item : Queue)
    → node_keys (process_queue_item nodes item) ≡ add_key (node_keys nodes) item.bls
unfolding process_queue_item
keys-process_queue_item nodes item = elim (Option-cases (find_node item.bls nodes)) [
  | inl e ↦
      rw (e, process_queue_item, add_key, contains-keys item.bls nodes, e)
        (keys-append nodes (node_of_queue item))
  | inr (n, e) ↦
      rw (e, process_queue_item, add_key, contains-keys item.bls nodes, e)
        (keys-update_node item.bls (queue_node item) nodes (λ n. refl))
]

keys-process_queued_nodes :
    (queue : List Queue) (nodes : List Node)
    → node_keys (process_queued_nodes nodes queue) ≡ add_keys (node_keys nodes) queue
unfolding process_queued_nodes
keys-process_queued_nodes [] nodes = refl
keys-process_queued_nodes (item ∷ queue) nodes =
    keys-process_queued_nodes queue (process_queue_item nodes item)
    ∙ ap (λ ks. add_keys ks queue) (keys-process_queue_item nodes item)

keys-get_nodes_identities :
    (k : Option (String → Option KeybaseState)) (nodes : List Node)
    → node_keys (get_nodes_identities k nodes) ≡ node_keys nodes
unfolding get_nodes_identities
keys-get_nodes_identities none nodes = refl
keys-get_nodes_identities (some k) nodes = keys-map _ nodes (λ n. refl)

keys-set_owners :
    (pairs : List (String × Option String)) (nodes : List Node)
    → node_keys (set_owners pairs nodes) ≡ node_keys nodes
unfolding set_owners
keys-set_owners [] nodes = refl
keys-set_owners ((bls, owner) ∷ pairs) nodes =
    keys-set_owners pairs _ ∙ keys-update_node bls _ nodes (λ n. refl)

bls-with_provider : (providers : List Provider) (n : Node) → (with_provider providers n).bls ≡ n.bls
unfolding with_provider
bls-with_provider providers n = ground arith

keys-set_providers :
    (providers : List Provider) (nodes : List Node)
    → node_keys (set_providers providers nodes) ≡ node_keys nodes
unfolding set_providers
keys-set_providers providers [] = refl
keys-set_providers providers (n ∷ nodes) = elim (Bool-cases (is_validator n)) [
  | inl e ↦ rw (e, bls-with_provider providers n, keys-set_providers providers nodes) refl
  | inr e ↦ rw (e, keys-set_providers providers nodes) refl
]

keys-get_nodes_stake_details :
    (stakes : List Stake) (nodes : List Node)
    → node_keys (get_nodes_stake_details stakes nodes) ≡ node_keys nodes
unfolding get_nodes_stake_details with_stake
keys-get_nodes_stake_details stakes nodes = keys-map (with_stake stakes) nodes (λ n. ground arith)

keys-get_heartbeat :
    (library : Library) (latest : Option String) (heartbeats statistics : List (String × Item))
    → node_keys (get_heartbeat library latest heartbeats statistics)
      ≡ library.distinct (map (key_of library) statistics ++ map (key_of library) heartbeats)
unfolding get_heartbeat node_of_item
keys-get_heartbeat library latest heartbeats statistics =
    go (library.distinct (map (key_of library) statistics ++ map (key_of library) heartbeats))
  where
    go :
        (ks : List String)
        → node_keys (
            map
              (λ bls.
                node_of_item library latest bls
                  (merge (item_of bls heartbeats) (item_of bls statistics)))
              ks)
          ≡ ks
    go [] = refl
    go (k ∷ ks) = ap (λ r. k ∷ r) (go ks)

module _ (sources : Sources) (owner : String → Option String)
    (laws : IsConsistent sources.contract owner)
    (fresh : (bls o : String) → sources.cached_owner bls ≡ some o → owner bls ≡ some o) where
  owned_keys :
      (nodes : List Node)
      → (owned : List Node) × (get_nodes_owner_and_provider sources nodes ≡ some owned)
        × (node_keys owned ≡ node_keys nodes)
  unfolding get_nodes_owner_and_provider
  owned_keys nodes =
      let (written, e, right) =
        get_owners-IsConsistent sources.contract owner laws sources.cached_owner (node_keys nodes)
          fresh in
      let pairs = zip (node_keys nodes) (map owner (node_keys nodes)) in
      (
        set_providers sources.providers (set_owners pairs nodes),
        rw (e, get_nodes_owner_and_provider) refl,
        keys-set_providers sources.providers (set_owners pairs nodes) ∙ keys-set_owners pairs nodes,
      )

  keys-with_auctions :
      (nodes : List Node) → node_keys (with_auctions sources nodes) ≡ node_keys nodes
  unfolding process_auctions
  keys-with_auctions nodes = elim (Option-cases sources.auctions) [
    | inl e ↦ rw (e, with_auctions) refl
    | inr (auctions, e) ↦
        rw (e, with_auctions)
          (keys-map (auctioned_node auctions) nodes (auctioned_node-bls auctions))
  ]

  -- If the contract is consistent, every cached owner is right, `distinct` leaves no text twice and the
  -- queue can be read, then the list of all nodes is made: its keys are those of the statistics and the
  -- heartbeats, then those of the queue that are not among them, in order, and none stands twice.
  pub get_all_nodes_raw-keys :
      MakesDistinct sources.library.distinct
      → (queue : List Queue) → get_queue sources.contract sources.queue ≡ some queue
      → (nodes : List Node) × (get_all_nodes_raw sources ≡ some nodes)
        × (node_keys nodes
            ≡ add_keys
                (sources.library.distinct (
                  map (key_of sources.library) sources.statistics
                  ++ map (key_of sources.library) sources.heartbeats))
                queue)
        × IsDistinct (node_keys nodes)
  unfolding get_all_nodes_raw
  get_all_nodes_raw-keys distinct queue read =
      let beats =
        get_heartbeat sources.library sources.latest_version sources.heartbeats
          sources.statistics in
      let named = get_nodes_identities sources.keybases (process_queued_nodes beats queue) in
      let first = sources.library.distinct (
        map (key_of sources.library) sources.statistics
        ++ map (key_of sources.library) sources.heartbeats) in
      let (owned, e, same) = owned_keys named in
      let staked = with_stakes sources owned in
      let listed : node_keys (with_auctions sources staked) ≡ add_keys first queue =
        keys-with_auctions staked
        ∙ keys-get_nodes_stake_details (sources.stakes (stake_addresses owned)) owned
        ∙ same
        ∙ keys-get_nodes_identities sources.keybases (process_queued_nodes beats queue)
        ∙ keys-process_queued_nodes queue beats
        ∙ ap (λ ks. add_keys ks queue)
            (keys-get_heartbeat sources.library sources.latest_version sources.heartbeats
              sources.statistics) in
      (
        with_auctions sources staked,
        rw (read, e, get_all_nodes_raw) refl,
        listed,
        rw listed (add_keys-IsDistinct queue first (distinct _)),
      )
