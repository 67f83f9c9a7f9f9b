-- ===== src/Nodes/Owners/Consistent.antt =====
-- The owners are the contract's, whichever of them the cache holds.
use api_elrond_com.Common.{
  ◌≡◌, ◌⊎◌, refl, sym, ◌∙◌, String, true, Option, none, some, List, [], ◌∷◌, map, All, contains,
  is_truthy, string_eq, eq_iff, Bool-cases, Option-cases, inl, inr, arith,
}
use api_elrond_com.Nodes.Owners.{
  Contract, lookup, write_all, get_bls_owner, get_owner_blses, note_owner, visit_missing,
  missing_of, owner_of, get_owners,
}

-- A contract in which `owner` says whose a key is: `getOwner` answers with it, an owner is a text that
-- is not empty, and the keys listed for an owner are its keys.
pub record IsConsistent (contract : Contract) (owner : String → Option String) : Type 0 where
  pub answers : (bls : String) → get_bls_owner contract bls ≡ some (owner bls)
  pub truthy : (bls o : String) → owner bls ≡ some o → is_truthy (some o) ≡ true
  pub owned : (o : String) → All (λ bls. owner bls ≡ some o) (get_owner_blses contract o)
  pub listed :
      (bls o : String) → owner bls ≡ some o → contains (get_owner_blses contract o) bls ≡ true

-- Every pair is of a key and its owner.
abbrev pub AreOwners : (String → Option String) → List (String × String) → Type 0
AreOwners owner [] = Unit
AreOwners owner ((bls, o) ∷ pairs) = (owner bls ≡ some o) × AreOwners owner pairs

module _ (owner : String → Option String) where
  lookup_sound :
      (bls v : String) (pairs : List (String × String))
      → AreOwners owner pairs
      → lookup bls pairs ≡ some v
      → owner bls ≡ some v
  lookup_sound bls v [] h e = cc
  lookup_sound bls v ((k, o) ∷ pairs) (right, h) e =
      ground (arith, lookup_sound bls v pairs h, eq_iff k bls)

  write_all-AreOwners :
      (keys : List String) (o : String) (pairs : List (String × String))
      → All (λ bls. owner bls ≡ some o) keys
      → AreOwners owner pairs
      → AreOwners owner (write_all keys o pairs)
  write_all-AreOwners [] o pairs h right = right
  write_all-AreOwners (k ∷ keys) o pairs (e, h) right =
      write_all-AreOwners keys o ((k, o) ∷ pairs) h (e, right)

  -- The pairs tell all there is to tell of a key.
  abbrev IsSettled : List (String × String) → String → Type 0
  IsSettled pairs bls = lookup bls pairs ≡ owner bls

  found-IsSettled :
      (bls v : String) (pairs : List (String × String))
      → AreOwners owner pairs
      → lookup bls pairs ≡ some v
      → IsSettled pairs bls
  found-IsSettled bls v pairs right e = e ∙ sym (lookup_sound bls v pairs right e)

  none-IsSettled :
      (bls : String) (pairs : List (String × String))
      → AreOwners owner pairs
      → owner bls ≡ none
      → IsSettled pairs bls
  none-IsSettled bls pairs right e = elim (Option-cases (lookup bls pairs)) [
    | inl missed ↦ missed ∙ sym e
    | inr (v, hit) ↦ found-IsSettled bls v pairs right hit
  ]

lookup-write_all :
    (bls o : String) (keys : List String) (pairs : List (String × String))
    → (lookup bls (write_all keys o pairs) ≡ some o)
      ⊎ (lookup bls (write_all keys o pairs) ≡ lookup bls pairs)
lookup-write_all bls o [] pairs = inr refl
lookup-write_all bls o (k ∷ keys) pairs =
    ground (arith, lookup-write_all bls o keys ((k, o) ∷ pairs))

lookup-write_all_kept :
    (bls o : String) (keys : List String) (pairs : List (String × String))
    → lookup bls pairs ≡ some o
    → lookup bls (write_all keys o pairs) ≡ some o
lookup-write_all_kept bls o keys pairs h = ground (arith, lookup-write_all bls o keys pairs)

lookup-write_all_written :
    (bls o : String) (keys : List String) (pairs : List (String × String))
    → contains keys bls ≡ true
    → lookup bls (write_all keys o pairs) ≡ some o
lookup-write_all_written bls o [] pairs h = cc
lookup-write_all_written bls o (k ∷ keys) pairs h = ground (
  arith,
  lookup-write_all_written bls o keys ((k, o) ∷ pairs),
  lookup-write_all_kept bls o keys ((k, o) ∷ pairs),
  eq_iff k bls,
  eq_iff bls k,
)

module _ (contract : Contract) (owner : String → Option String)
    (laws : IsConsistent contract owner) where
  -- What a step of the loop keeps.
  note-AreOwners :
      (answer : Option String) (pairs : List (String × String))
      → AreOwners owner pairs
      → AreOwners owner (note_owner contract answer pairs)
  unfolding note_owner
  note-AreOwners none pairs right = right
  note-AreOwners (some o) pairs right = elim (Bool-cases (is_truthy (some o))) [
    | inl t ↦
        rw t (write_all-AreOwners owner (get_owner_blses contract o) o pairs (laws.owned o) right)
    | inr f ↦ rw f right
  ]

  note_kept :
      (answer : Option String) (pairs : List (String × String)) (bls : String)
      → AreOwners owner pairs
      → IsSettled owner pairs bls
      → IsSettled owner (note_owner contract answer pairs) bls
  unfolding note_owner
  note_kept none pairs bls right settled = settled
  note_kept (some o) pairs bls right settled = elim (Bool-cases (is_truthy (some o))) [
    | inl t ↦ rw t (elim (lookup-write_all bls o (get_owner_blses contract o) pairs) [
      | inl hit ↦
          found-IsSettled owner bls o _
            (write_all-AreOwners owner (get_owner_blses contract o) o pairs (laws.owned o) right)
            hit
      | inr same ↦ same ∙ settled
    ])
    | inr f ↦ rw f settled
  ]

  note_settles :
      (bls : String) (pairs : List (String × String))
      → AreOwners owner pairs
      → IsSettled owner (note_owner contract (owner bls) pairs) bls
  unfolding note_owner
  note_settles bls pairs right = elim (Option-cases (owner bls)) [
    | inl e ↦ rw e (none-IsSettled owner bls pairs right e ∙ e)
    | inr (o, e) ↦
        rw (e, laws.truthy bls o e)
          (lookup-write_all_written bls o (get_owner_blses contract o) pairs (laws.listed bls o e))
  ]

  record Visited (missing : List String) (pairs : List (String × String)) : Type 0 where
    result : List (String × String)
    returns : visit_missing contract missing pairs ≡ some result
    right : AreOwners owner result
    settled : All (IsSettled owner result) missing
    kept : (bls : String) → IsSettled owner pairs bls → IsSettled owner result bls

  -- One more key, before keys that are visited from `next` on.
  add-Visited :
      (bls : String) (missing : List String) (pairs next : List (String × String))
      → visit_missing contract (bls ∷ missing) pairs ≡ visit_missing contract missing next
      → IsSettled owner next bls
      → ((b : String) → IsSettled owner pairs b → IsSettled owner next b)
      → Visited missing next
      → Visited (bls ∷ missing) pairs
  add-Visited bls missing pairs next step now keep v = record {
    result = v.result;
    returns = step ∙ v.returns;
    right = v.right;
    settled = (v.kept bls now, v.settled);
    kept = λ b h. v.kept b (keep b h);
  }

  truthy_found :
      (bls : String) (pairs : List (String × String))
      → is_truthy (lookup bls pairs) ≡ true
      → (v : String) × (lookup bls pairs ≡ some v)
  truthy_found bls pairs t = elim (Option-cases (lookup bls pairs)) [
    | inl e ↦ absurd (ground (arith, e, t))
    | inr (v, e) ↦ (v, e)
  ]

  visit_missing-Visited :
      (missing : List String) (pairs : List (String × String))
      → AreOwners owner pairs
      → Visited missing pairs
  unfolding visit_missing
  visit_missing-Visited [] pairs right = record {
    result = pairs;
    returns = refl;
    right = right;
    settled = tt;
    kept = λ b h. h;
  }
  visit_missing-Visited (bls ∷ missing) pairs right =
      elim (Bool-cases (is_truthy (lookup bls pairs))) [
        | inl t ↦
            let (v, hit) = truthy_found bls pairs t in
            add-Visited bls missing pairs pairs (rw t refl)
              (found-IsSettled owner bls v pairs right hit) (λ b h. h)
              (visit_missing-Visited missing pairs right)
        | inr f ↦
            let next = note_owner contract (owner bls) pairs in
            add-Visited bls missing pairs next (rw (f, laws.answers bls) refl)
              (note_settles bls pairs right) (λ b h. note_kept (owner bls) pairs b right h)
              (visit_missing-Visited missing next (note-AreOwners (owner bls) pairs right))
      ]

  owner_of_settled :
      (cached : String → Option String) (pairs : List (String × String)) (blses : List String)
      → ((bls o : String) → cached bls ≡ some o → owner bls ≡ some o)
      → All (IsSettled owner pairs) (missing_of contract cached blses)
      → map (owner_of contract cached pairs) blses ≡ map owner blses
  unfolding missing_of
  owner_of_settled cached pairs [] fresh h = refl
  owner_of_settled cached pairs (bls ∷ blses) fresh h = elim (Option-cases (cached bls)) [
    | inl e ↦
        let (first, rest) : IsSettled owner pairs bls
            × All (IsSettled owner pairs) (missing_of contract cached blses) =
          rw (e, missing_of) at h in
        rw (e, owner_of, first, owner_of_settled cached pairs blses fresh rest) refl
    | inr (o, e) ↦
        rw
          (
            e,
            owner_of,
            fresh bls o e,
            owner_of_settled cached pairs blses fresh (rw (e, missing_of) at h),
          )
          refl
  ]

  -- If the contract is consistent and every cached owner is right, then looking up the owners returns:
  -- every key gets its owner in the contract, and every pair written to the cache is a key with its owner.
  pub get_owners-IsConsistent :
      (cached : String → Option String) (blses : List String)
      → ((bls o : String) → cached bls ≡ some o → owner bls ≡ some o)
      → (written : List (String × String)) × (get_owners contract cached blses
          ≡ some (map owner blses, written))
        × AreOwners owner written
  unfolding get_owners
  get_owners-IsConsistent cached blses fresh =
      let v = visit_missing-Visited (missing_of contract cached blses) [] tt in
      (
        v.result,
        rw (v.returns, owner_of_settled cached v.result blses fresh v.settled, get_owners) refl,
        v.right,
      )
