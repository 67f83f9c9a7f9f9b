-- ===== src/Identities/Grouping.antt =====
-- Every node belongs to exactly one identity.
use api_elrond_com.Common.{
  ℕ, ◌+◌, ◌≡◌, refl, Bool, Option, none, some, List, [], ◌∷◌, ◌++◌, option_eq, string_eq, ◌==◌,
  is_truthy, Bool-cases, Option-cases, inl, inr, if◌then◌else◌, arith,
}
use api_elrond_com.Nodes.{Node}
use api_elrond_com.Identities.{
  KeybaseIdentity, IdentityDetailed, nodes_of, lone_node, push_to_first, find_identity, of_keybases,
  add_node, add_nodes, get_identities_detailed,
}

-- How many nodes a test accepts, in a list and in all the identities.
abbrev pub count : (Node → Bool) → List Node → ℕ
count p [] = 0
count p (n ∷ nodes) = (if p n then 1 else 0) + count p nodes

abbrev pub count_all : (Node → Bool) → List IdentityDetailed → ℕ
count_all p [] = 0
count_all p (d ∷ details) = count p (nodes_of d) + count_all p details

count-append : (p : Node → Bool) (xs ys : List Node) → count p (xs ++ ys) ≡ count p xs + count p ys
count-append p [] ys = omega arith
count-append p (x ∷ xs) ys = omega (arith, count-append p xs ys)

count_all-append :
    (p : Node → Bool) (ds : List IdentityDetailed) (node : Node)
    → count_all p (ds ++ lone_node node ∷ []) ≡ count_all p ds + count p (node ∷ [])
count_all-append p [] node = omega arith
count_all-append p (d ∷ ds) node = omega (arith, count_all-append p ds node)

count_all-push_to_first :
    (p : Node → Bool) (ds : List IdentityDetailed) (node : Node) (d : IdentityDetailed)
    → find_identity node.identity ds ≡ some d
    → count_all p (push_to_first node ds) ≡ count_all p ds + count p (node ∷ [])
count_all-push_to_first p [] node d h = cc
count_all-push_to_first p (e ∷ ds) node d h = elim (Bool-cases (e.identity == node.identity)) [
  | inl hit ↦ rw (hit, push_to_first) (omega (arith, count-append p (nodes_of e) (node ∷ [])))
  | inr miss ↦
      rw (miss, push_to_first) (omega (arith, count_all-push_to_first p ds node d (rw miss at h)))
]

count_all-add_node :
    (p : Node → Bool) (ds : List IdentityDetailed) (node : Node)
    → count_all p (add_node ds node) ≡ count_all p ds + count p (node ∷ [])
unfolding add_node
count_all-add_node p ds node = elim (Option-cases (find_identity node.identity ds)) [
  | inl e ↦ rw (e, add_node) (count_all-append p ds node)
  | inr (d, e) ↦ elim (Bool-cases (is_truthy node.identity)) [
    | inl t ↦ rw (e, t, add_node) (count_all-push_to_first p ds node d e)
    | inr f ↦ rw (e, f, add_node) (count_all-append p ds node)
  ]
]

count_all-add_nodes :
    (p : Node → Bool) (nodes : List Node) (ds : List IdentityDetailed)
    → count_all p (add_nodes ds nodes) ≡ count_all p ds + count p nodes
unfolding add_nodes
count_all-add_nodes p [] ds = omega arith
count_all-add_nodes p (n ∷ nodes) ds =
    omega (arith, count_all-add_nodes p nodes (add_node ds n), count_all-add_node p ds n)

count_all-of_keybases :
    (p : Node → Bool) (ks : List (Option KeybaseIdentity)) → count_all p (of_keybases ks) ≡ 0
unfolding of_keybases
count_all-of_keybases p [] = refl
count_all-of_keybases p (none ∷ ks) = count_all-of_keybases p ks
count_all-of_keybases p (some k ∷ ks) = ground (arith, count_all-of_keybases p ks)

-- The nodes of the identities are the nodes given: any test accepts as many among the nodes of all the
-- identities as among the nodes.
pub get_identities_detailed-count :
    (keybases : List (Option KeybaseIdentity)) (nodes : List Node) (p : Node → Bool)
    → count_all p (get_identities_detailed keybases nodes) ≡ count p nodes
unfolding get_identities_detailed
get_identities_detailed-count keybases nodes p =
    omega
      (arith, count_all-add_nodes p nodes (of_keybases keybases), count_all-of_keybases p keybases)
