-- ===== src/Nodes/Owners.antt =====
-- The owners of nodes and the staking queue, as they are read from the contracts: `getOwners`,
-- `getBlsOwner`, `getOwnerBlses` and `getQueue` of src/endpoints/nodes/node.service.ts.
pub mod Consistent
pub mod Positions
use api_elrond_com.Common.{
  ℕ, suc, ◌+◌, String, Bool, true, false, Option, none, some, List, [], ◌∷◌, ◌++◌, map, string_eq,
  ◌==◌, is_truthy, if◌then◌else◌,
}
use api_elrond_com.Nodes.{Queue}

-- The contract queries and the decoders of their answers, which are not of this repository: a query
-- without an answer is `none`.
pub record Contract : Type 0 where
  -- `getOwner` of the staking contract.
  pub query_owner : String → Option (List String)
  -- `getBlsKeysStatus` of the auction contract, for an owner.
  pub query_keys_status : String → Option (List String)
  -- `Buffer.from(x, 'base64').toString('hex')`
  pub hex_of_base64 : String → String
  pub bech32_encode : String → String
  -- `parseInt(BigInt('0x' + hex).toString())`
  pub number_of_hex : String → ℕ

-- The values of an object by key: the last write counts, and stands first.
abbrev pub lookup : String → List (String × String) → Option String
lookup key [] = none
lookup key ((k, v) ∷ rest) = if k == key then some v else lookup key rest

abbrev pub write_all : List String → String → List (String × String) → List (String × String)
write_all [] v owners = owners
write_all (key ∷ keys) v owners = write_all keys v ((key, v) ∷ owners)

-- The elements at even indices.
abbrev pub evens : List String → List String
evens [] = []
evens (x ∷ []) = x ∷ []
evens (x ∷ y ∷ rest) = x ∷ evens rest

module _ (contract : Contract) where
  -- An empty answer throws, which is the outer `none`.
  unfoldable pub get_bls_owner : String → Option (Option String)
  get_bls_owner bls = elim (contract.query_owner bls) [
    | none ↦ some none
    | some [] ↦ none
    | some (encoded ∷ rest) ↦ some (some (contract.bech32_encode (contract.hex_of_base64 encoded)))
  ]

  unfoldable pub get_owner_blses : String → List String
  get_owner_blses owner = elim (contract.query_keys_status owner) [
    | none ↦ []
    | some statuses ↦ map contract.hex_of_base64 (evens statuses)
  ]

  -- What the loop does with the answer to `getBlsOwner`.
  unfoldable pub note_owner : Option String → List (String × String) → List (String × String)
  unfolding get_owner_blses
  note_owner none owners = owners
  note_owner (some owner) owners =
      if is_truthy (some owner) then write_all (get_owner_blses owner) owner owners else owners

  -- The loop over the keys that the cache misses.
  unfoldable pub visit_missing :
      List String → List (String × String) → Option (List (String × String))
  unfolding get_bls_owner note_owner
  visit_missing [] owners = some owners
  visit_missing (bls ∷ missing) owners =
      if is_truthy (lookup bls owners)
      then visit_missing missing owners
      else elim (get_bls_owner bls) [
        | none ↦ none
        | some answer ↦ visit_missing missing (note_owner answer owners)
      ]

  -- The keys without a cached owner.
  unfoldable pub missing_of : (String → Option String) → List String → List String
  missing_of cached [] = []
  missing_of cached (bls ∷ blses) =
      let rest = missing_of cached blses in elim (cached bls) [ none ↦ bls ∷ rest | some _ ↦ rest ]

  abbrev pub owner_of : (String → Option String) → List (String × String) → String → Option String
  owner_of cached owners bls = elim (cached bls) [
    | none ↦ lookup bls owners
    | some owner ↦ some owner
  ]

  -- The owners in the order of the keys, and what is written to the cache.
  unfoldable pub get_owners :
      (String → Option String)
      → List String
      → Option (List (Option String) × List (String × String))
  unfolding visit_missing missing_of
  get_owners cached blses = elim (visit_missing (missing_of cached blses) []) [
    | none ↦ none
    | some owners ↦ some (map (owner_of cached owners) blses, owners)
  ]

  -- `getQueue` after the query: three values an item. A last group of fewer throws.
  unfoldable pub queue_from : ℕ → List String → Option (List Queue)
  queue_from position [] = some []
  queue_from position (a ∷ []) = none
  queue_from position (a ∷ b ∷ []) = none
  queue_from position (a ∷ b ∷ c ∷ rest) =
      let item : Queue = record {
        bls = contract.hex_of_base64 a;
        nonce = contract.number_of_hex (contract.hex_of_base64 c);
        rewards_address = contract.bech32_encode (contract.hex_of_base64 b);
        position = position;
      } in
      elim (queue_from (position + 1) rest) [ none ↦ none | some items ↦ some (item ∷ items) ]

  unfoldable pub get_queue : Option (List String) → Option (List Queue)
  unfolding queue_from
  get_queue none = some []
  get_queue (some encoded) = queue_from 1 encoded
