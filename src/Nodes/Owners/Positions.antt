-- ===== src/Nodes/Owners/Positions.antt =====
-- The positions of the queue's items.
use api_elrond_com.Common.{
  ℕ, zero, suc, ◌+◌, ◌≡◌, refl, ap, ◌∙◌, String, some, List, [], ◌∷◌, get_elem?, length, arith,
}
use api_elrond_com.Nodes.{Queue}
use api_elrond_com.Nodes.Owners.{Contract, queue_from, get_queue}

-- A queue as the contract holds it, and the flat list of values it answers.
pub record Entry : Type 0 where
  pub key : String
  pub rewards : String
  pub nonce : String

abbrev pub flatten : List Entry → List String
flatten [] = []
flatten (e ∷ entries) = e.key ∷ e.rewards ∷ e.nonce ∷ flatten entries

module _ (contract : Contract) where
  abbrev pub item_at : ℕ → Entry → Queue
  item_at position e = record {
    bls = contract.hex_of_base64 e.key;
    nonce = contract.number_of_hex (contract.hex_of_base64 e.nonce);
    rewards_address = contract.bech32_encode (contract.hex_of_base64 e.rewards);
    position = position;
  }

  abbrev pub items_from : ℕ → List Entry → List Queue
  items_from position [] = []
  items_from position (e ∷ entries) = item_at position e ∷ items_from (position + 1) entries

  queue_from-flatten :
      (position : ℕ) (entries : List Entry)
      → queue_from contract position (flatten entries) ≡ some (items_from position entries)
  unfolding queue_from
  queue_from-flatten position [] = refl
  queue_from-flatten position (e ∷ entries) = rw (queue_from-flatten (position + 1) entries) refl

  items_from-position :
      (position : ℕ) (entries : List Entry) (i : ℕ) (e : Entry)
      → get_elem? entries i ≡ some e
      → get_elem? (items_from position entries) i ≡ some (item_at (position + i) e)
  items_from-position position [] i e h = cc
  items_from-position position (x ∷ entries) zero e h = ground (arith, h)
  items_from-position position (x ∷ entries) (suc i) e h =
      items_from-position (position + 1) entries i e h ∙ ap (λ n. some (item_at n e)) (omega arith)

  -- The answer to a queue of entries is read as one item an entry, in order, and the item at index i
  -- has position i + 1.
  pub get_queue-flatten :
      (entries : List Entry) (i : ℕ) (e : Entry)
      → get_elem? entries i ≡ some e
      → (items : List Queue) × (get_queue contract (some (flatten entries)) ≡ some items)
        × (length items ≡ length entries)
        × (get_elem? items i ≡ some (item_at (suc i) e))
  unfolding get_queue
  get_queue-flatten entries i e h = (
    items_from 1 entries,
    queue_from-flatten 1 entries,
    length-items_from 1 entries,
    items_from-position 1 entries i e h ∙ ap (λ n. some (item_at n e)) (omega arith),
  )
    where
      length-items_from :
          (position : ℕ) (entries : List Entry)
          → length (items_from position entries) ≡ length entries
      length-items_from position [] = refl
      length-items_from position (x ∷ entries) = ap suc (length-items_from (position + 1) entries)
