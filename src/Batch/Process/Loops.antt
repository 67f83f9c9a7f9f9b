-- ===== src/Batch/Process/Loops.antt =====
-- The rule for the nested loops of `processTransaction`: what one round keeps, the loops keep.
use api_elrond_com.Common.{
  ℕ, zero, suc, String, length, ◌≡◌, some, inl, inr, get_elem?, Option-cases, Bool-cases, ◌==◌,
  option_eq, string_eq,
}
use api_elrond_com.Batch.{BatchTransactionStatus, TransactionBatchItem, TransactionBatch, items_at}
use api_elrond_com.Batch.World.{World, Env}
use api_elrond_com.Batch.World.Ends.{Ends, bind-Ends}
use api_elrond_com.Batch.Process.{update_item, visit_item, visit_items, visit_groups}

-- A round keeps what it keeps at an item that is there.
module _ {B P : Type 0} (env : Env B P) (tx_hash batch_id address : String)
    (status : BatchTransactionStatus) where
  pub visit_item-Ends :
      (I : TransactionBatch → World B P → Type 0) (E : World B P → Type 0) (i j : ℕ)
      (b : TransactionBatch) (w : World B P)
      → I b w
      → ((item : TransactionBatchItem)
          → get_elem? (items_at b.groups i) j ≡ some item
          → Ends I E (update_item env tx_hash batch_id address status i j item b w))
      → Ends I E (visit_item env tx_hash batch_id address status i j b w)
  unfolding visit_item
  visit_item-Ends I E i j b w h update = elim (Option-cases (get_elem? (items_at b.groups i) j)) [
    | inl missing ↦ rw (missing, visit_item) h
    | inr (item, found) ↦
        rw (found, visit_item)
          (elim (Bool-cases (item.transaction.hash == some tx_hash)) [
            | inl same ↦ rw same (update item found)
            | inr other ↦ rw other h
          ])
  ]

module _ {B P : Type 0} (env : Env B P) (tx_hash batch_id address : String)
    (status : BatchTransactionStatus) (I : TransactionBatch → World B P → Type 0)
    (E : World B P → Type 0)
    (keep : (i j : ℕ) (b : TransactionBatch) (w : World B P)
      → I b w
      → Ends I E (visit_item env tx_hash batch_id address status i j b w)) where
  visit_items-Ends :
      (n i j : ℕ) (b : TransactionBatch) (w : World B P)
      → I b w
      → Ends I E (visit_items env tx_hash batch_id address status n i j b w)
  unfolding visit_items
  visit_items-Ends zero i j b w h = h
  visit_items-Ends (suc n) i j b w h =
      bind-Ends I I E (visit_item env tx_hash batch_id address status i j b)
        (visit_items env tx_hash batch_id address status n i (suc j)) w (keep i j b w h)
        (visit_items-Ends n i (suc j))

  pub visit_groups-Ends :
      (n i : ℕ) (b : TransactionBatch) (w : World B P)
      → I b w
      → Ends I E (visit_groups env tx_hash batch_id address status n i b w)
  unfolding visit_groups
  visit_groups-Ends zero i b w h = h
  visit_groups-Ends (suc n) i b w h =
      bind-Ends I I E
        (visit_items env tx_hash batch_id address status (length (items_at b.groups i)) i zero b)
        (visit_groups env tx_hash batch_id address status n (suc i)) w
        (visit_items-Ends (length (items_at b.groups i)) i zero b w h) (visit_groups-Ends n (suc i))
