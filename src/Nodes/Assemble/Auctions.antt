-- ===== src/Nodes/Assemble/Auctions.antt =====
-- What the auction lists make of a node.
use api_elrond_com.Common.{
  ℕ, ◌+◌, ◌≡◌, refl, sym, ◌∙◌, ap, String, Bool, true, Option, none, some, List, [], ◌∷◌, ◌++◌, map,
  find?, length, string_eq, ◌==◌, eq_iff, if◌then◌else◌, Bool-cases, arith, inl, inr,
}
use api_elrond_com.Nodes.{Node, AuctionNode, Auction}
use api_elrond_com.Nodes.Assemble.{auction_node, visit_auction_list, visit_auctions}

-- All the auction lists in a row, each entry with its auction's top-up.
abbrev pub Entry : Type 0
Entry = record { top_up : String; entry : AuctionNode }

abbrev entry_of : String → AuctionNode → Entry
entry_of top_up entry = record { top_up = top_up; entry = entry }

abbrev pub entries_of : List Auction → List Entry
entries_of [] = []
entries_of (a ∷ as_) = map (entry_of a.qualified_top_up) a.auction_list ++ entries_of as_

abbrev visit_entry : Entry → ℕ × Node → ℕ × Node
visit_entry e (position, node) = (
  position + 1,
  if node.bls == e.entry.bls_key then auction_node e.top_up e.entry position node else node,
)

abbrev visit_entries : List Entry → ℕ × Node → ℕ × Node
visit_entries [] s = s
visit_entries (e ∷ es) s = visit_entries es (visit_entry e s)

visit_entries-append :
    (es fs : List Entry) (s : ℕ × Node)
    → visit_entries (es ++ fs) s ≡ visit_entries fs (visit_entries es s)
visit_entries-append [] fs s = refl
visit_entries-append (e ∷ es) fs s = visit_entries-append es fs (visit_entry e s)

visit_auction_list-entries :
    (top_up : String) (list : List AuctionNode) (s : ℕ × Node)
    → visit_auction_list top_up list s ≡ visit_entries (map (entry_of top_up) list) s
unfolding visit_auction_list
visit_auction_list-entries top_up [] s = refl
visit_auction_list-entries top_up (x ∷ list) (position, node) =
    visit_auction_list-entries top_up list (visit_entry (entry_of top_up x) (position, node))

visit_auctions-entries :
    (auctions : List Auction) (s : ℕ × Node)
    → visit_auctions auctions s ≡ visit_entries (entries_of auctions) s
unfolding visit_auctions
visit_auctions-entries [] s = refl
visit_auctions-entries (a ∷ auctions) s =
    ap (visit_auctions auctions) (visit_auction_list-entries a.qualified_top_up a.auction_list s)
    ∙ visit_auctions-entries auctions
        (visit_entries (map (entry_of a.qualified_top_up) a.auction_list) s)
    ∙ sym (
        visit_entries-append (map (entry_of a.qualified_top_up) a.auction_list)
          (entries_of auctions) s)

-- The node that a single node becomes.
abbrev pub auctioned_node : List Auction → Node → Node
auctioned_node auctions node = (visit_auctions auctions (1, node)).1

abbrev pub find_entry : String → List Entry → Option Entry
find_entry key es = find? (λ (e : Entry). key == e.entry.bls_key) es

visit_entries-bls : (es : List Entry) (s : ℕ × Node) → ((visit_entries es s).1).bls ≡ (s.1).bls
visit_entries-bls [] s = refl
visit_entries-bls (e ∷ es) (position, node) =
    visit_entries-bls es (visit_entry e (position, node)) ∙ ground arith

pub auctioned_node-bls :
    (auctions : List Auction) (node : Node) → (auctioned_node auctions node).bls ≡ node.bls
auctioned_node-bls auctions node =
    ap (λ (s : ℕ × Node). (s.1).bls) (visit_auctions-entries auctions (1, node))
    ∙ visit_entries-bls (entries_of auctions) (1, node)

visit_entries-position : (es : List Entry) (s : ℕ × Node) → (visit_entries es s).0 ≡ s.0 + length es
visit_entries-position [] s = omega arith
visit_entries-position (e ∷ es) (position, node) =
    omega (arith, visit_entries-position es (visit_entry e (position, node)))

visit_entries_absent :
    (es : List Entry) (position : ℕ) (node : Node)
    → find_entry node.bls es ≡ none
    → (visit_entries es (position, node)).1 ≡ node
visit_entries_absent [] position node h = refl
visit_entries_absent (e ∷ es) position node h = elim (Bool-cases (node.bls == e.entry.bls_key)) [
  | inl hit ↦ absurd (found_absurd _ _ hit h)
  | inr miss ↦ rw (miss, visit_entries) (visit_entries_absent es (position + 1) node (rw miss at h))
]
  where
    found_absurd : (b : Bool) (o : Option Entry) → b ≡ true → (if b then some e else o) ≡ none → ⊥
    found_absurd b o hit h = ground arith

-- A node whose key is in no auction list is as it was.
pub auctioned_node_absent :
    (auctions : List Auction) (node : Node)
    → find_entry node.bls (entries_of auctions) ≡ none
    → auctioned_node auctions node ≡ node
auctioned_node_absent auctions node h =
    ap (λ (s : ℕ × Node). s.1) (visit_auctions-entries auctions (1, node))
    ∙ visit_entries_absent (entries_of auctions) 1 node h

visit_entry_hit :
    (e : Entry) (position : ℕ) (node : Node)
    → e.entry.bls_key ≡ node.bls
    → visit_entry e (position, node) ≡ (position + 1, auction_node e.top_up e.entry position node)
visit_entry_hit e position node h = rw ((eq_iff node.bls e.entry.bls_key).1 (sym h))

visit_entries_hit :
    (e : Entry) (after : List Entry) (position : ℕ) (node : Node)
    → e.entry.bls_key ≡ node.bls
    → find_entry node.bls after ≡ none
    → (visit_entries (e ∷ after) (position, node)).1 ≡ auction_node e.top_up e.entry position node
visit_entries_hit e after position node h last =
    ap (λ (s : ℕ × Node). (visit_entries after s).1) (visit_entry_hit e position node h)
    ∙ visit_entries_absent after (position + 1) (auction_node e.top_up e.entry position node) last

-- A node in the auction lists is marked with the last entry that has its key: the entry's place in
-- all the lists in a row, counted from one, its auction's top-up, and whether it is selected.
pub auctioned_node_last :
    (auctions : List Auction) (node : Node) (before : List Entry) (e : Entry) (after : List Entry)
    → entries_of auctions ≡ before ++ e ∷ after
    → e.entry.bls_key ≡ node.bls
    → find_entry node.bls after ≡ none
    → ((auctioned_node auctions node).auctioned ≡ some true)
      × ((auctioned_node auctions node).auction_position ≡ some (length before + 1))
      × ((auctioned_node auctions node).auction_top_up ≡ some e.top_up)
      × ((auctioned_node auctions node).auction_selected ≡ some e.entry.selected)
auctioned_node_last auctions node before e after split key last =
    let s = visit_entries before (1, node) in
    let same : (s.1).bls ≡ node.bls = visit_entries-bls before (1, node) in
    let whole : auctioned_node auctions node ≡ auction_node e.top_up e.entry (s.0) (s.1) =
      ap (λ (s : ℕ × Node). s.1)
        (visit_auctions-entries auctions (1, node)
          ∙ ap (λ es. visit_entries es (1, node)) split
          ∙ visit_entries-append before (e ∷ after) (1, node))
      ∙ visit_entries_hit e after (s.0) (s.1) (key ∙ sym same) (rw same last) in
    let place : s.0 ≡ length before + 1 = omega (arith, visit_entries-position before (1, node)) in
    (
      ap (λ (n : Node). n.auctioned) whole,
      ap (λ (n : Node). n.auction_position) whole ∙ ap some place,
      ap (λ (n : Node). n.auction_top_up) whole,
      ap (λ (n : Node). n.auction_selected) whole,
    )
