-- ===== src/Batch/Start/Convert.antt =====
-- The two conversions between a batch and the forms that the endpoints read and write.
use api_elrond_com.Common.{
  ◌≡◌, ◌≢◌, refl, ◌∙◌, subst, sym, List, [], ◌∷◌, ◌++◌, map, map-append, All, All-append,
}
use api_elrond_com.Batch.{
  BatchTransactionStatus, TransactionBatchStatus, TransactionDetails, TransactionBatchItem,
  TransactionBatchGroup, TransactionBatch,
}
use api_elrond_com.Batch.Execute.{tx_of}
use api_elrond_com.Batch.Start.{
  TransactionBatchSimplified, TransactionDetailsWithResult, new_item, new_group, all_items,
  shown_status, show_item, show_groups, convert_to_transaction_batch,
  convert_from_transaction_batch,
}

abbrev pub concat : List (List TransactionDetails) → List TransactionDetails
concat [] = []
concat (txs ∷ rest) = txs ++ concat rest

abbrev pub details_of : TransactionDetailsWithResult → TransactionDetails
details_of t = t.details

map-show_item :
    (s : TransactionBatchStatus) (items : List TransactionBatchItem)
    → map details_of (map (show_item s) items) ≡ map tx_of items
map-show_item s [] = refl
map-show_item s (item ∷ items) = cc (map-show_item s items)

map-show_groups :
    (s : TransactionBatchStatus) (gs : List TransactionBatchGroup)
    → map details_of (show_groups s gs) ≡ map tx_of (all_items gs)
map-show_groups s [] = refl
map-show_groups s (g ∷ gs) = simp (map-append, map-show_item s g.items, map-show_groups s gs)

map-new_item : (txs : List TransactionDetails) → map tx_of (map new_item txs) ≡ txs
map-new_item [] = refl
map-new_item (tx ∷ txs) = cc (map-new_item txs)

map-new_group :
    (groups : List (List TransactionDetails))
    → map tx_of (all_items (map new_group groups)) ≡ concat groups
map-new_group [] = refl
map-new_group (txs ∷ rest) = simp (map-append, map-new_item txs, map-new_group rest)

-- A batch that was just converted shows the id and the transactions of the request, in its order.
pub convert_from-convert_to :
    (batch : TransactionBatchSimplified)
    → ((convert_from_transaction_batch (convert_to_transaction_batch batch)).id ≡ batch.id)
      × (map details_of
            (convert_from_transaction_batch (convert_to_transaction_batch batch)).transactions
          ≡ concat batch.transactions)
unfolding convert_from_transaction_batch convert_to_transaction_batch
convert_from-convert_to batch = (
  refl,
  map-show_groups TransactionBatchStatus.pending (map new_group batch.transactions)
      ∙ map-new_group batch.transactions,
)

shown_status_settled :
    (s : BatchTransactionStatus)
    → shown_status TransactionBatchStatus.invalid s ≢ BatchTransactionStatus.pending
shown_status_settled BatchTransactionStatus.pending = cc
shown_status_settled BatchTransactionStatus.invalid = cc
shown_status_settled BatchTransactionStatus.dropped = cc
shown_status_settled BatchTransactionStatus.success = cc
shown_status_settled (BatchTransactionStatus.other s) = cc

abbrev pub IsSettled : TransactionDetailsWithResult → Type 0
IsSettled t = t.status ≢ BatchTransactionStatus.pending

show_items-IsSettled :
    (items : List TransactionBatchItem)
    → All IsSettled (map (show_item TransactionBatchStatus.invalid) items)
show_items-IsSettled [] = tt
show_items-IsSettled (item ∷ items) = (shown_status_settled item.status, show_items-IsSettled items)

show_groups-IsSettled :
    (gs : List TransactionBatchGroup)
    → All IsSettled (show_groups TransactionBatchStatus.invalid gs)
show_groups-IsSettled [] = tt
show_groups-IsSettled (g ∷ gs) =
    All-append IsSettled _ _ (show_items-IsSettled g.items) (show_groups-IsSettled gs)

-- An invalid batch shows all its transactions, in order, and none of them as pending.
pub convert_from_invalid :
    (batch : TransactionBatch)
    → batch.status ≡ TransactionBatchStatus.invalid
    → (map details_of (convert_from_transaction_batch batch).transactions
        ≡ map tx_of (all_items batch.groups))
      × All IsSettled (convert_from_transaction_batch batch).transactions
unfolding convert_from_transaction_batch
convert_from_invalid batch e = (
  map-show_groups batch.status batch.groups,
  subst (λ s. All IsSettled (show_groups s batch.groups)) (sym e)
      (show_groups-IsSettled batch.groups),
)
