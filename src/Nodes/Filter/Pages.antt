-- ===== src/Nodes/Filter/Pages.antt =====
-- The pages of a filtered list of nodes.
use Prim.Native.Nat.{min}
use mathlib.Core.List.{reverse, reverse_aux}
use api_elrond_com.Common.{
  ℕ, zero, suc, ◌+◌, ◌-◌, ◌≡◌, refl, ap, ◌∙◌, Bool, true, List, [], ◌∷◌, all, filter, length, take,
  drop, length-take, length-drop, Bool-cases, Option-cases, inl, inr, arith,
}
use api_elrond_com.Nodes.{Node}
use api_elrond_com.Nodes.Filter.{
  NodeFilter, Texts, Comparison, node_matches, compare_nodes, is_desc, sort_nodes,
  get_filtered_nodes, get_node_count, get_nodes,
}

-- What is known of JavaScript's `sort`, whatever the comparison: it moves the elements about.
pub record IsSort (js : Texts) : Type 0 where
  pub length-sort :
      (cmp : Node → Node → Comparison) (nodes : List Node)
      → length (js.sort cmp nodes) ≡ length nodes
  pub all-sort :
      (p : Node → Bool) (cmp : Node → Node → Comparison) (nodes : List Node)
      → all p (js.sort cmp nodes) ≡ all p nodes

module _ {A : Type 0} where
  length-reverse_aux : (xs ys : List A) → length (reverse_aux xs ys) ≡ length xs + length ys
  length-reverse_aux [] ys = omega arith
  length-reverse_aux (x ∷ xs) ys = omega (arith, length-reverse_aux xs (x ∷ ys))

  all-reverse_aux :
      (p : A → Bool) (xs ys : List A)
      → all p xs ≡ true
      → all p ys ≡ true
      → all p (reverse_aux xs ys) ≡ true
  all-reverse_aux p [] ys h k = k
  all-reverse_aux p (x ∷ xs) ys h k = all-reverse_aux p xs (x ∷ ys) (ground arith) (ground arith)

  all-filter : (p : A → Bool) (xs : List A) → all p (filter p xs) ≡ true
  all-filter p [] = refl
  all-filter p (x ∷ xs) = ground (arith, all-filter p xs)

  all-drop : (p : A → Bool) (n : ℕ) (xs : List A) → all p xs ≡ true → all p (drop n xs) ≡ true
  all-drop p zero xs h = h
  all-drop p (suc n) [] h = h
  all-drop p (suc n) (x ∷ xs) h = all-drop p n xs (ground arith)

  all-take : (p : A → Bool) (n : ℕ) (xs : List A) → all p xs ≡ true → all p (take n xs) ≡ true
  all-take p zero xs h = refl
  all-take p (suc n) [] h = refl
  all-take p (suc n) (x ∷ xs) h = ground (arith, all-take p n xs)

  length-reverse : (xs : List A) → length (reverse xs) ≡ length xs
  length-reverse xs = omega (arith, length-reverse_aux xs [])

  all-reverse : (p : A → Bool) (xs : List A) → all p xs ≡ true → all p (reverse xs) ≡ true
  all-reverse p xs h = all-reverse_aux p xs [] h refl

module _ (js : Texts) (laws : IsSort js) where
  length-sort_nodes :
      (query : NodeFilter) (nodes : List Node) → length (sort_nodes js query nodes) ≡ length nodes
  unfolding sort_nodes
  length-sort_nodes query nodes = elim (Option-cases query.sort) [
    | inl e ↦ rw (e) refl
    | inr (s, e) ↦ elim (Bool-cases (is_desc js query.order)) [
      | inl d ↦
          rw (e, d)
            (length-reverse (js.sort (compare_nodes js s) nodes)
              ∙ laws.length-sort (compare_nodes js s) nodes)
      | inr d ↦ rw (e, d) (laws.length-sort (compare_nodes js s) nodes)
    ]
  ]

  all-sort_nodes :
      (p : Node → Bool) (query : NodeFilter) (nodes : List Node)
      → all p nodes ≡ true
      → all p (sort_nodes js query nodes) ≡ true
  unfolding sort_nodes
  all-sort_nodes p query nodes h = elim (Option-cases query.sort) [
    | inl e ↦ rw (e) h
    | inr (s, e) ↦
        let sorted = laws.all-sort p (compare_nodes js s) nodes ∙ h in
        elim (Bool-cases (is_desc js query.order)) [
          | inl d ↦ rw (e, d) (all-reverse p (js.sort (compare_nodes js s) nodes) sorted)
          | inr d ↦ rw (e, d) sorted
        ]
  ]

  -- Where `sort` only moves elements about, every node of a page matches the query, and the page is as
  -- long as asked for, or else as long as what the count says is left after `from`.
  pub get_nodes_page :
      (nodes : List Node) (from size : ℕ) (query : NodeFilter)
      → (all (node_matches js query) (get_nodes js nodes from size query) ≡ true)
        × (length (get_nodes js nodes from size query)
            ≡ min size (get_node_count js nodes query - from))
  unfolding get_nodes get_node_count get_filtered_nodes
  get_nodes_page nodes from size query =
      let found = filter (node_matches js query) nodes in
      (
        all-take _ size _ (
            all-drop _ from _ (
              all-sort_nodes (node_matches js query) query found
                (all-filter (node_matches js query) nodes))),
        length-take size (drop from (sort_nodes js query found))
            ∙ ap (min size) (length-drop from (sort_nodes js query found)),
      )
