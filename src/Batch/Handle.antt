-- ===== src/Batch/Handle.antt =====
-- The two jobs of src/crons/transaction.processor/batch.transaction.processor.service.ts that read
-- the registry of pending transactions: `handleTransactionBatches` for the transactions of a block,
-- and `handleDroppedTransactions` for those that were never seen.
pub mod Registry
pub mod Undated
pub mod Dropped
use api_elrond_com.Common.{
  ℕ, zero, suc, ◌+◌, ◌-◌, ◌*◌, String, Bool, true, false, not, ◌&&◌, ◌==◌, string_eq, option_eq,
  Option, none, some, List, [], ◌∷◌, ◌++◌, map, filter, find?, contains, ltb, leb, length,
  get_elem?, set, is_truthy, split, replace, if◌then◌else◌, ◌+text◌,
}
use api_elrond_com.Batch.{
  BatchTransactionStatus, TransactionBatchStatus, TransactionBatchItem, TransactionBatchGroup,
  TransactionBatch, items_at, is_pending,
}
use api_elrond_com.Batch.World.{
  type_error, Outcome, ok, thrown, Event, batch_updated, World, Env, M, pure, ◌>>=◌, ◌>>◌, emit,
  transaction_batch_key, pending_transaction_key,
}
use api_elrond_com.Batch.Process.{process_transaction, set_status, with_status}

-- What the registry says of a pending transaction; without a date where its text is none.
pub record PendingTransaction : Type 0 where
  pub hash : String
  pub batch_id : String
  pub address : String
  pub date : Option ℕ

pub record ShardTransaction : Type 0 where
  pub hash : String
  pub sender : String
  pub status : BatchTransactionStatus

pub record ProcessedTransaction : Type 0 where
  pub batch_id : String
  pub hash : String
  pub address : String

-- `object[key] = value`: a key that is there keeps its place.
unfoldable pub put_pending : PendingTransaction → List PendingTransaction → List PendingTransaction
put_pending p [] = p ∷ []
put_pending p (q ∷ qs) = if q.hash == p.hash then p ∷ qs else q ∷ put_pending p qs

-- The last transaction with the hash: a later one overwrites an earlier.
unfoldable pub find_last : String → List ShardTransaction → Option ShardTransaction
find_last hash [] = none
find_last hash (t ∷ ts) = elim (find_last hash ts) [
  | some later ↦ some later
  | none ↦ if t.hash == hash then some t else none
]

-- The type of the SDK's `groupBy` on the batch's id: the groups with their keys.
abbrev pub GroupBy : Type 0
GroupBy = List ProcessedTransaction → List (String × List ProcessedTransaction)

-- The event of a group carries the address of the group's first transaction.
abbrev pub event_of : String × List ProcessedTransaction → List Event
event_of (id, []) = []
event_of (id, t ∷ ts) =
    batch_updated t.address id (map (λ (x : ProcessedTransaction). some x.hash) (t ∷ ts)) ∷ []

unfoldable pub events_of : List (String × List ProcessedTransaction) → List Event
events_of [] = []
events_of (g ∷ gs) = event_of g ++ events_of gs

-- What the indexer and the gateway say of a transaction.
pub data TransactionLookup : Type 0 where
  present absent failed : TransactionLookup

module _ {B P : Type 0} (env : Env B P) where
  -- The address and the date are given only behind the first and the second semicolon.
  unfoldable pub parse_pending : String → String → PendingTransaction
  parse_pending key value =
      let components = split b';' value in
      record {
        hash = replace key "pendingtransaction:" "";
        batch_id = elim (get_elem? components 0) [ none ↦ "" | some id ↦ id ];
        address = elim (get_elem? components 1) [ none ↦ "" | some address ↦ address ];
        date = elim (get_elem? components 2) [
          | none ↦ env.parse "2021-01-01"
          | some date ↦ env.parse date
        ];
      }

  -- The loop over the keys; a key whose value is missing or empty is passed over.
  unfoldable pub read_pending : List String → P → List PendingTransaction → List PendingTransaction
  unfolding parse_pending put_pending
  read_pending [] s found = found
  read_pending (key ∷ keys) s found = elim (env.pending.get key s) [
    | none ↦ read_pending keys s found
    | some value ↦
        read_pending keys s
          (if is_truthy (some value) then put_pending (parse_pending key value) found else found)
  ]

  -- The events go out one by one.
  unfoldable pub emit_all : List Event → M B P (Unit {0})
  emit_all [] = pure tt
  emit_all (e ∷ es) = do emit e; emit_all es

  unfoldable pub process_pending :
      List ShardTransaction → List PendingTransaction → M B P (List ProcessedTransaction)
  unfolding process_transaction find_last
  process_pending transactions [] = pure []
  process_pending transactions (p ∷ ps) = elim (find_last p.hash transactions) [
    | none ↦ process_pending transactions ps
    | some t ↦ (do
      process_transaction env p.hash p.batch_id t.sender t.status
      rest ← process_pending transactions ps
      pure (record { batch_id = p.batch_id; hash = p.hash; address = t.sender } ∷ rest))
  ]

  unfoldable pub handle_transaction_batches : GroupBy → List ShardTransaction → M B P (Unit {0})
  unfolding read_pending process_pending events_of emit_all
  handle_transaction_batches group_by transactions w =
      let keys = map (λ (t : ShardTransaction). pending_transaction_key t.hash) transactions in
      (do
        processed ← process_pending transactions (read_pending keys w.pending [])
        emit_all (events_of (group_by processed)))
        w

  -- `differenceInMinutes <= 10`, which no invalid date satisfies.
  abbrev pub is_recent : ℕ → PendingTransaction → Bool
  is_recent now p = elim (p.date) [ none ↦ false | some date ↦ leb now (date + 600_000) ]

  module _ (p : PendingTransaction) where
    abbrev pub is_dropped : TransactionBatchItem → Bool
    is_dropped item = item.transaction.hash == some p.hash && is_pending item.status

    -- What happens at a pending item with the hash: the batch is saved, and the entry is removed.
    abbrev pub drop_update : ℕ → ℕ → TransactionBatchItem → TransactionBatch → TransactionBatch
    drop_update i j item batch =
        with_status TransactionBatchStatus.dropped
          (set_status BatchTransactionStatus.dropped batch i j item)

    abbrev pub drop_save : TransactionBatch → World B P → World B P
    drop_save batch w = record w {
      batches = env.batches.set (transaction_batch_key p.address p.batch_id) batch w.batches;
      pending = env.pending.delete (pending_transaction_key p.hash) w.pending;
    }

    -- The loops thread the batch, the list `processedTransactions`, and the world.
    unfoldable pub drop_item :
        ℕ
        → ℕ
        → TransactionBatch × List ProcessedTransaction × World B P
        → TransactionBatch × List ProcessedTransaction × World B P
    drop_item i j (batch, processed, w) = elim (get_elem? (items_at batch.groups i) j) [
      | none ↦ (batch, processed, w)
      | some item ↦
          let batch' = drop_update i j item batch in
          let more =
            processed
            ++ record { batch_id = p.batch_id; hash = p.hash; address = p.address } ∷ [] in
          if is_dropped item then (batch', more, drop_save batch' w) else (batch, processed, w)
    ]

    unfoldable pub drop_items :
        ℕ
        → ℕ
        → ℕ
        → TransactionBatch × List ProcessedTransaction × World B P
        → TransactionBatch × List ProcessedTransaction × World B P
    unfolding drop_item
    drop_items zero i j s = s
    drop_items (suc n) i j s = drop_items n i (suc j) (drop_item i j s)

    unfoldable pub drop_groups :
        ℕ
        → ℕ
        → TransactionBatch × List ProcessedTransaction × World B P
        → TransactionBatch × List ProcessedTransaction × World B P
    unfolding drop_items
    drop_groups zero i s = s
    drop_groups (suc n) i s =
        drop_groups n (suc i) (drop_items (length (items_at (s.0).groups i)) i zero s)

  -- One round of the loop over the pending transactions. An error in the round is logged and passed over;
  -- `toISOString` of an invalid date throws outside of what is caught.
  unfoldable pub drop_one :
      (String → TransactionLookup)
      → PendingTransaction
      → List ProcessedTransaction
      → M B P (List ProcessedTransaction)
  unfolding drop_groups
  drop_one find_transaction p processed w =
      let batch = env.batches.get (transaction_batch_key p.address p.batch_id) w.batches in
      if is_recent w.now p then (ok processed, w) else elim (p.date) [
        | none ↦ type_error w
        | some _ ↦ elim (find_transaction p.hash) [
          | present ↦ (ok processed, w)
          | failed ↦ (ok processed, w)
          | absent ↦ elim batch [
            | none ↦ (ok processed, w)
            | some b ↦
                let end = drop_groups p (length b.groups) zero (b, processed, w) in
                (ok (end.1), end.2)
          ]
        ]
      ]

  unfoldable pub drop_all :
      (String → TransactionLookup)
      → List PendingTransaction
      → List ProcessedTransaction
      → M B P (List ProcessedTransaction)
  unfolding drop_one
  drop_all find_transaction [] processed = pure processed
  drop_all find_transaction (p ∷ ps) processed = do
    more ← drop_one find_transaction p processed
    drop_all find_transaction ps more

  unfoldable pub handle_dropped_transactions :
      GroupBy → (String → TransactionLookup) → M B P (Unit {0})
  unfolding read_pending drop_all events_of emit_all
  handle_dropped_transactions group_by find_transaction w =
      (do
        processed ←
            drop_all find_transaction
              (read_pending (env.pending.keys "pendingtransaction:" w.pending) w.pending []) []
        emit_all (events_of (group_by processed)))
        w
