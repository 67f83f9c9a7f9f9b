-- ===== src/Batch/Tests.antt =====
-- Runs of the batch services in a concrete environment, and the properties at inputs of their own.
use api_elrond_com.Common.{
  ℕ, zero, suc, ◌≢◌, subst, false, inl, inr, ◌≡◌, refl, String, true, ◌==◌, string_eq, eq_iff,
  Option, none, some, List, [], ◌∷◌, ◌++◌, map, filter, length, split, Memᴰ, ap, strip_prefix,
  strip_prefix-append, drop, take, if◌then◌else◌, arith, ◌⊎◌, get_elem?, All, starts_with,
}
use mathlib.Core.Option.{some-injective}
use api_elrond_com.Batch.{
  BatchTransactionStatus, TransactionBatchStatus, TransactionDetails, TransactionBatchItem,
  TransactionBatch, items_at, get_address,
}
use api_elrond_com.Batch.World.{
  Cache, IsCache, World, Env, quiet, accepted, refused, transaction_batch_key,
  pending_transaction_key, ok, thrown,
}
use api_elrond_com.Batch.World.Ends.{Ends}
use api_elrond_com.Batch.Execute.{execute_items, execute_transaction, pending_value, tx_of}
use api_elrond_com.Batch.Execute.Submission.{AreExecuted}
use api_elrond_com.Batch.Execute.Prefix.{
  StopsAtInvalid, any_invalid, execute_items_prefix, execute_transaction_refused,
}
use api_elrond_com.Batch.Start.{
  TransactionBatchSimplified, convert_to_transaction_batch, convert_from_transaction_batch,
  start_transaction_batch, post_batch, all_items,
}
use api_elrond_com.Batch.Start.Storage.{IsStartResult, lead, start_transaction_batch-IsStartResult}
use api_elrond_com.Batch.Start.Isolation.{post_batch_no_overwrite}
use api_elrond_com.Batch.Start.Registered.{post_batch_others}
use api_elrond_com.Batch.Start.Convert.{
  concat, details_of, IsSettled, convert_from-convert_to, convert_from_invalid,
}
use api_elrond_com.Batch.Process.Live.{process_transaction_ends}
use api_elrond_com.Batch.Process.{is_hash, process_transaction}
use api_elrond_com.Batch.Process.Terminal.{process_transaction_terminal}
use api_elrond_com.Batch.Process.Success.{IsLastSuccess, process_transaction_success}
use api_elrond_com.Batch.Handle.{
  PendingTransaction, TransactionLookup, parse_pending, drop_one, read_pending, put_pending,
  handle_dropped_transactions,
}
use api_elrond_com.Batch.Handle.Undated.{handle_dropped_transactions_undated}
use api_elrond_com.Batch.Handle.Registry.{parse_pending-register, parse_pending_semicolon}
use api_elrond_com.Batch.Handle.Dropped.{drop_one_settled}

-- A store as an association list, the newest entry first.
module _ {V : Type 0} where
  find_entry : String → List (String × V) → Option V
  find_entry j [] = none
  find_entry j ((k, v) ∷ s) = if k == j then some v else find_entry j s

  remove_entry : String → List (String × V) → List (String × V)
  remove_entry j [] = []
  remove_entry j ((k, v) ∷ s) =
      let rest = remove_entry j s in if k == j then rest else (k, v) ∷ rest

  find_entry-remove_entry :
      (j k : String) (s : List (String × V))
      → find_entry j (remove_entry k s) ≡ (if k == j then none else find_entry j s)
  unfolding find_entry remove_entry
  find_entry-remove_entry j k [] = ground arith
  find_entry-remove_entry j k ((i, v) ∷ s) =
      ground (arith, find_entry-remove_entry j k s, eq_iff i k, eq_iff i j, eq_iff k j)

  abbrev list_cache : Cache (List (String × V)) V
  list_cache = record {
    get = find_entry;
    set = λ k v s. (k, v) ∷ s;
    delete = remove_entry;
    keys = λ p s. filter (λ k. starts_with k p) (map (λ (e : String × V). e.0) s);
  }

  list_cache-IsCache : IsCache list_cache
  unfolding find_entry
  list_cache-IsCache = record { get-set = λ j k v s. refl; get-delete = find_entry-remove_entry }

abbrev Batches : Type 0
Batches = List (String × TransactionBatch)

abbrev Pendings : Type 0
Pendings = List (String × String)

-- Every address decodes but "bad"; the gateway refuses what costs more than it likes.
abbrev sample_env : Env Batches Pendings
sample_env = record {
  batches = list_cache;
  pending = list_cache;
  shard_of = λ a. if a == "bad" then none else some 1;
  plugin = λ tx. quiet;
  gateway =
      λ sent tx. if tx.value == "9" then refused "insufficient funds" else accepted (some tx.value);
  compute_hash = λ tx. some tx.value;
  iso = λ t. "now";
  parse = λ s. some 7;
}

abbrev start_world : World Batches Pendings
start_world = record { batches = []; pending = []; submitted = []; events = []; now = 7 }

abbrev tx : String → String → TransactionDetails
tx receiver value = record {
  chain_id = "1";
  payload = none;
  gas_limit = 1;
  gas_price = 1;
  nonce = 0;
  receiver = receiver;
  sender = "ann";
  signature = "";
  value = value;
  version = 1;
  options = none;
}

abbrev two_groups : TransactionBatchSimplified
two_groups = record {
  id = "b";
  transactions = (tx "bob" "1" ∷ tx "bob" "2" ∷ []) ∷ (tx "bob" "3" ∷ []) ∷ [];
}

abbrev item : String → BatchTransactionStatus → TransactionBatchItem
item hash status = record {
  transaction = record { tx = tx "bob" hash; hash = some hash; payload = "" };
  status = status;
  error = none;
}

abbrev batch_of : TransactionBatchStatus → List (List TransactionBatchItem) → TransactionBatch
batch_of status groups = record {
  id = "b";
  groups = map (λ (g : List TransactionBatchItem). record { items = g }) groups;
  status = status;
  source_ip = none;
}

abbrev world_with : TransactionBatch → World Batches Pendings
world_with b = record start_world { batches = (transaction_batch_key "ann" "b", b) ∷ [] }

runs : Unit {0}
unfolding find_entry remove_entry execute_transaction execute_items post_batch process_transaction
    drop_one get_address
runs = tt

-- The first group is sent when the batch is posted, and the second when the first has succeeded.
posted : length ((post_batch sample_env "ann" two_groups none none start_world).1).submitted ≡ 2
unfolding runs
posted = refl

abbrev waiting : TransactionBatch
waiting = batch_of TransactionBatchStatus.pending (
    (item "1" BatchTransactionStatus.success ∷ item "2" BatchTransactionStatus.pending ∷ [])
    ∷ (item "3" BatchTransactionStatus.pending ∷ [])
    ∷ [])

advanced :
    ((process_transaction sample_env "2" "b" "ann" BatchTransactionStatus.success
      (world_with waiting)).1
    ).submitted
    ≡ tx "bob" "3" ∷ []
unfolding runs
advanced = refl

execute_items_prefix_example :
    let run =
      execute_items sample_env
        (item "1" BatchTransactionStatus.pending ∷ item "2" BatchTransactionStatus.pending ∷ [])
        start_world in
    AreExecuted sample_env []
      (take
        (length (run.1))
        (item "1" BatchTransactionStatus.pending ∷ item "2" BatchTransactionStatus.pending ∷ []))
      (run.1)
      ((run.2).submitted)
    × (run.0
        ≡ run.1
          ++ drop (length (run.1)) (
              item "1" BatchTransactionStatus.pending
              ∷ item "2" BatchTransactionStatus.pending
              ∷ []))
    × StopsAtInvalid (run.1)
    × ((any_invalid (run.1) ≡ true) ⊎ (length (run.1) ≡ 2))
execute_items_prefix_example =
    execute_items_prefix sample_env
      (item "1" BatchTransactionStatus.pending ∷ item "2" BatchTransactionStatus.pending ∷ [])
      start_world

execute_transaction_refused_example :
    let after =
      (execute_transaction sample_env (item "9" BatchTransactionStatus.pending) start_world).0 in
    (after.status ≡ BatchTransactionStatus.pending)
    × (after.error ≡ none)
    × (after.transaction.hash ≡ none)
execute_transaction_refused_example =
    execute_transaction_refused sample_env (item "9" BatchTransactionStatus.pending) start_world 1 1
      "insufficient funds" refl refl refl refl

start_transaction_batch-IsStartResult_example :
    let b = convert_to_transaction_batch two_groups in
    Ends
      (IsStartResult sample_env (lead b.groups) b.id start_world)
      (λ w'. w'.batches ≡ [])
      (start_transaction_batch sample_env b none start_world)
unfolding convert_to_transaction_batch
start_transaction_batch-IsStartResult_example =
    start_transaction_batch-IsStartResult sample_env (convert_to_transaction_batch two_groups) none
      start_world (λ e. cc)

-- A key without the tag of the pending transactions.
other_key : (hash : String) → "username:ann" ≢ pending_transaction_key hash
other_key hash e =
    let tag : String = "pendingtransaction:" in
    let untagged : strip_prefix tag "username:ann" ≡ none = refl in
    let tagged = strip_prefix-append tag hash in cc (ap (strip_prefix tag) e, untagged, tagged)

post_batch_others_example :
    let w' = (post_batch sample_env "ann" two_groups none none start_world).1 in
    (list_cache.get (transaction_batch_key "bob" "b") w'.batches
      ≡ list_cache.get (transaction_batch_key "bob" "b") start_world.batches)
    × (list_cache.get "username:ann" w'.pending ≡ list_cache.get "username:ann" start_world.pending)
post_batch_others_example =
    post_batch_others sample_env list_cache-IsCache list_cache-IsCache "ann" two_groups none none
      start_world (transaction_batch_key "bob" "b") "username:ann"
      (λ e.
        ground (arith, eq_iff (transaction_batch_key "bob" "b") (transaction_batch_key "ann" "b")))
      other_key

post_batch_no_overwrite_example :
    list_cache.get
      (transaction_batch_key "ann" "b")
      ((post_batch sample_env "ann" two_groups none none (world_with waiting)).1).batches
    ≡ some waiting
unfolding find_entry
post_batch_no_overwrite_example =
    post_batch_no_overwrite sample_env list_cache-IsCache "ann" two_groups none none
      (world_with waiting) (transaction_batch_key "ann" "b") waiting refl

abbrev failed : TransactionBatch
failed =
    batch_of TransactionBatchStatus.invalid (
      (item "1" BatchTransactionStatus.invalid ∷ item "2" BatchTransactionStatus.pending ∷ []) ∷ [])

process_transaction_terminal_example :
    let r =
      process_transaction sample_env "2" "b" "ann" BatchTransactionStatus.success
        (world_with failed) in
    (r.0 ≡ ok tt)
    × ((b' : TransactionBatch) × (list_cache.get (transaction_batch_key "ann" "b") (r.1).batches
          ≡ some b')
        × (b'.status ≡ TransactionBatchStatus.invalid))
    × ((r.1).submitted ≡ [])
    × ((r.1).events ≡ [])
unfolding find_entry
process_transaction_terminal_example =
    process_transaction_terminal sample_env list_cache-IsCache "2" "b" "ann"
      BatchTransactionStatus.success (world_with failed) failed refl (λ e. cc)

abbrev last_group : TransactionBatchStatus → BatchTransactionStatus → TransactionBatch
last_group status of_second =
    batch_of status ((item "1" BatchTransactionStatus.success ∷ item "2" of_second ∷ []) ∷ [])

process_transaction_success_example :
    (BatchTransactionStatus.success ≡ BatchTransactionStatus.success)
    × IsLastSuccess (last_group TransactionBatchStatus.success BatchTransactionStatus.success)
unfolding runs
process_transaction_success_example =
    process_transaction_success sample_env list_cache-IsCache "2" "b" "ann"
      BatchTransactionStatus.success
      (world_with (last_group TransactionBatchStatus.pending BatchTransactionStatus.pending))
      (last_group TransactionBatchStatus.pending BatchTransactionStatus.pending)
      (last_group TransactionBatchStatus.success BatchTransactionStatus.success) refl refl refl refl

abbrev open_group : TransactionBatch
open_group = last_group TransactionBatchStatus.pending BatchTransactionStatus.pending

open_group_only :
    (k l : ℕ) (x : TransactionBatchItem)
    → (k ≢ 0) ⊎ (l ≢ 1)
    → get_elem? (items_at open_group.groups k) l ≡ some x
    → is_hash sample_env "2" "b" "ann" BatchTransactionStatus.success x ≡ false
open_group_only zero zero x differ h =
    subst (λ y. is_hash sample_env "2" "b" "ann" BatchTransactionStatus.success y ≡ false)
      (some-injective _ _ h) refl
open_group_only zero (suc zero) x (inl differ) h = absurd (differ refl)
open_group_only zero (suc zero) x (inr differ) h = absurd (differ refl)
open_group_only zero (suc (suc l)) x differ h = cc
open_group_only (suc k) l x differ h = cc

process_transaction_ends_example :
    let r =
      process_transaction sample_env "2" "b" "ann" BatchTransactionStatus.success
        (world_with open_group) in
    (r.0 ≡ ok tt)
    × (list_cache.get (transaction_batch_key "ann" "b") (r.1).batches
        ≡ some (last_group TransactionBatchStatus.success BatchTransactionStatus.success))
unfolding find_entry
process_transaction_ends_example =
    process_transaction_ends sample_env "2" "b" "ann" 0 1 (item "2" BatchTransactionStatus.pending)
      open_group (world_with open_group) refl refl open_group_only refl refl refl list_cache-IsCache
      refl

convert_from_invalid_example :
    (map details_of (convert_from_transaction_batch failed).transactions
      ≡ map tx_of (all_items failed.groups))
    × All IsSettled (convert_from_transaction_batch failed).transactions
convert_from_invalid_example = convert_from_invalid failed refl

convert_from-convert_to_example :
    ((convert_from_transaction_batch (convert_to_transaction_batch two_groups)).id ≡ "b")
    × (map details_of
          (convert_from_transaction_batch (convert_to_transaction_batch two_groups)).transactions
        ≡ concat two_groups.transactions)
convert_from-convert_to_example = convert_from-convert_to two_groups

parse_pending-register_example :
    parse_pending sample_env (pending_transaction_key "h") (pending_value sample_env "b" "ann" 7)
    ≡ record { hash = "h"; batch_id = "b"; address = "ann"; date = some 7 }
parse_pending-register_example =
    parse_pending-register sample_env "h" "b" "ann" 7 (omega arith) (omega arith) (omega arith) refl

parse_pending_semicolon_example :
    (parse_pending sample_env
      (pending_transaction_key "h")
      (pending_value sample_env "b;c" "ann" 7)).batch_id
    ≡ "b"
parse_pending_semicolon_example =
    parse_pending_semicolon sample_env "h" "b" "c" "ann" 7 (omega arith)

abbrev entry : PendingTransaction
entry = record { hash = "2"; batch_id = "b"; address = "ann"; date = some 0 }

abbrev late : World Batches Pendings
late = record start_world {
  batches = (transaction_batch_key "ann" "b", waiting) ∷ [];
  now = 600_001;
}

drop_one_settled_example :
    (b' : TransactionBatch) × (list_cache.get
        (transaction_batch_key "ann" "b")
        ((drop_one sample_env (λ h. TransactionLookup.absent) entry [] late).1).batches
      ≡ some b')
    × (get_elem? (items_at b'.groups 0) 0 ≡ some (item "1" BatchTransactionStatus.success))
    × ((b' ≡ waiting) ⊎ (b'.status ≡ TransactionBatchStatus.dropped))
unfolding find_entry
drop_one_settled_example =
    drop_one_settled sample_env entry list_cache-IsCache (λ h. TransactionLookup.absent) [] late
      waiting 0 0 (item "1" BatchTransactionStatus.success) refl refl (λ e. cc)

-- An id with a semicolon shifts what is read back, so that the address stands for the date.
abbrev dated_env : Env Batches Pendings
dated_env = record sample_env { parse = λ s. if s == "now" then some 7 else none }

abbrev registered_world : World Batches Pendings
registered_world = record late {
  pending =
      (pending_transaction_key "h", pending_value dated_env "b;c" "ann" 7)
      ∷ (pending_transaction_key "2", pending_value dated_env "b" "ann" 7)
      ∷ [];
}

abbrev undated : PendingTransaction
undated = record { hash = "h"; batch_id = "b"; address = "c"; date = none }

handle_dropped_transactions_undated_example :
    let r =
      handle_dropped_transactions dated_env
        (λ _. [])
        (λ _. TransactionLookup.absent)
        registered_world in
    (r.0 ≡ thrown (record { message = none })) × ((r.1).events ≡ [])
unfolding find_entry read_pending parse_pending put_pending split
handle_dropped_transactions_undated_example =
    handle_dropped_transactions_undated dated_env (λ _. TransactionLookup.absent) (λ _. [])
      registered_world undated (Memᴰ.head refl) refl
