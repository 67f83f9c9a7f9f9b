-- ===== src/Transactions/Lookup.antt =====
-- A transaction with its results, receipt, logs and operations: `tryGetTransactionFromElastic` of
-- src/endpoints/transactions/transaction.get.service.ts.
pub mod Attach
use api_elrond_com.Common.{
  String, Bool, true, false, ◌||◌, Option, none, some, List, [], ◌∷◌, ◌++◌, map, any, option_eq,
  string_eq, ◌==◌, if◌then◌else◌,
}
use api_elrond_com.Transactions.{
  TransactionOperation, TransactionLog, SmartContractResult, TransactionReceipt,
  TransactionDetailed,
}
use api_elrond_com.Transactions.Trim.{PreviousHashes, trim_operations}
use api_elrond_com.Transactions.Logs.{get_transaction_logs_from_elastic}
use api_elrond_com.Transactions.Operations.{TransferServices, get_operations_for_transaction}

-- What the indexer has of a transaction: the fields of `TransactionDetailed`, which `mergeObjects` copies,
-- and the two fields that the service reads beside them.
pub record IndexedTransaction : Type 0 where
  pub detailed : TransactionDetailed
  pub has_sc_results : Bool
  pub sc_results : Option (List SmartContractResult)

-- An answer of the search for a transaction, and that of the service.
pub data Answer : Type 0 where
  threw missing : Answer
  found : IndexedTransaction → Answer

pub data Lookup : Type 0 where
  thrown null : Lookup
  transaction : TransactionDetailed → Lookup

-- No option, or none in the list, asks for everything.
unfoldable pub wants : Option (List String) → String → Bool
wants none option = true
wants (some []) option = true
wants (some (f ∷ fields)) option = any (λ x. x == option) (f ∷ fields)

unfoldable pub previous_hashes : List SmartContractResult → PreviousHashes
previous_hashes [] hash = none
previous_hashes (r ∷ results) hash =
    let later = previous_hashes results hash in
    if any (λ (x : SmartContractResult). x.hash == hash) results
    then later
    else if r.hash == hash
    then r.prev_tx_hash
    else none

-- The first result with the hash that the log stands under is given the log.
unfoldable pub attach_to_result :
    TransactionLog → List SmartContractResult → List SmartContractResult
attach_to_result log [] = []
attach_to_result log (r ∷ results) =
    let rest = attach_to_result log results in
    if log.id == some r.hash then record r { logs = some log } ∷ results else r ∷ rest

unfoldable pub attach_log : String → TransactionDetailed → TransactionLog → TransactionDetailed
unfolding attach_to_result
attach_log tx_hash t log =
    if log.id == some tx_hash then record t { logs = some log } else elim (t.results) [
      | none ↦ t
      | some results ↦ record t { results = some (attach_to_result log results) }
    ]

unfoldable pub attach_logs :
    String → TransactionDetailed → List TransactionLog → TransactionDetailed
unfolding attach_log
attach_logs tx_hash t [] = t
attach_logs tx_hash t (log ∷ logs) = attach_logs tx_hash (attach_log tx_hash t log) logs

-- The searches of the indexer, the services of the operations, and `sorted` of the package. That a
-- search after the first throws, which gives null, is left out.
pub record Services : Type 0 where
  pub get_transaction : String → Answer
  pub get_transaction_sc_results : String → List SmartContractResult
  pub get_transaction_receipts : String → List TransactionReceipt
  pub get_transaction_logs : List String → List TransactionLog
  pub transfer : TransferServices
  pub sorted : (TransactionOperation → Bool) → List TransactionOperation → List TransactionOperation

abbrev pub first_receipt :
    Option TransactionReceipt → List TransactionReceipt → Option TransactionReceipt
first_receipt old [] = old
first_receipt old (r ∷ receipts) = some r

abbrev pub results_or_none : TransactionDetailed → List SmartContractResult
results_or_none t = elim (t.results) [ none ↦ [] | some results ↦ results ]

module _ (services : Services) where
  -- `results`, where they are asked for and there are any, and the hashes that they add.
  unfoldable pub with_results :
      Option (List String) → IndexedTransaction → TransactionDetailed × (List SmartContractResult)
  unfolding wants
  with_results fields indexed =
      let start : TransactionDetailed = elim (indexed.sc_results) [
        | none ↦ indexed.detailed
        | some results ↦ record indexed.detailed { results = some results }
      ] in
      let results = services.get_transaction_sc_results indexed.detailed.tx_hash in
      if indexed.has_sc_results
      then (if wants fields "results"
          then (record start { results = some results }, results)
          else (start, []))
      else (start, [])

  unfoldable pub with_receipt :
      Option (List String) → String → TransactionDetailed → TransactionDetailed
  unfolding wants
  with_receipt fields tx_hash t =
      if wants fields "receipt"
      then record t {
        receipt = first_receipt t.receipt (services.get_transaction_receipts tx_hash);
      }
      else t

  -- `none` is an error that is caught.
  unfoldable pub with_operations :
      Option (List String)
      → PreviousHashes
      → List TransactionLog
      → TransactionDetailed
      → Option TransactionDetailed
  unfolding wants get_operations_for_transaction trim_operations
  with_operations fields previous logs t =
      if wants fields "operations"
      then (elim (get_operations_for_transaction services.transfer (results_or_none t) logs
          t.sender) [
            | none ↦ none
            | some operations ↦ some (record t {
              operations = trim_operations services.sorted t.sender operations previous;
            })
          ])
      else some t

  unfoldable pub with_logs :
      Option (List String)
      → String
      → List SmartContractResult
      → TransactionDetailed
      → Option TransactionDetailed
  unfolding with_operations previous_hashes get_transaction_logs_from_elastic attach_logs
  with_logs fields tx_hash results t =
      if wants fields "logs" || wants fields "operations"
      then (elim (get_transaction_logs_from_elastic services.get_transaction_logs
          (tx_hash ∷ map (λ (r : SmartContractResult). r.hash) results)) [
            | none ↦ none
            | some logs ↦ elim (with_operations fields (previous_hashes results) logs t) [
              | none ↦ none
              | some detailed ↦ some (attach_logs tx_hash detailed logs)
            ]
          ])
      else some t

  unfoldable pub try_get_transaction_from_elastic : String → Option (List String) → Lookup
  unfolding with_results with_receipt with_logs
  try_get_transaction_from_elastic tx_hash fields = elim (services.get_transaction tx_hash) [
    | threw ↦ Lookup.thrown
    | missing ↦ Lookup.null
    | found indexed ↦
        let (t, results) = with_results fields indexed in
        elim (with_logs fields tx_hash results (with_receipt fields tx_hash t)) [
          | none ↦ Lookup.null
          | some detailed ↦ Lookup.transaction detailed
        ]
  ]
