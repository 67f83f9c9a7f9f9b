-- ===== src/Transactions/Logs.antt =====
-- The logs of many transactions: the loop of `getTransactionLogsFromElastic` of
-- src/endpoints/transactions/transaction.get.service.ts.
pub mod Chunks
use api_elrond_com.Common.{
  ℕ, zero, suc, String, Option, none, some, List, [], ◌∷◌, ◌++◌, length, take, drop,
}
use api_elrond_com.Transactions.{TransactionLog}

-- `fetch` is `indexerService.getTransactionLogs`, of which nothing is supposed: the search of
-- src/common/indexer/elastic/elastic.indexer.service.ts or its counterpart for Postgres, which finds at
-- most 10000 logs of the hashes, in no known order. The loop goes on while there are current hashes. Out
-- of fuel it has no result.
module _ (fetch : List String → List TransactionLog) where
  unfoldable pub logs_rounds : ℕ → ℕ → List String → Option (List TransactionLog)
  logs_rounds size zero hashes = none
  logs_rounds size (suc fuel) hashes = elim (take size hashes) [
    | [] ↦ some []
    | current ∷ others ↦ elim (logs_rounds size fuel (drop size hashes)) [
      | none ↦ none
      | some items ↦ some (fetch (current ∷ others) ++ items)
    ]
  ]

  unfoldable pub get_transaction_logs_from_elastic : List String → Option (List TransactionLog)
  unfolding logs_rounds
  get_transaction_logs_from_elastic hashes = logs_rounds 1000 (suc (length hashes)) hashes
