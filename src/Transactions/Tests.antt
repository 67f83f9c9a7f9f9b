-- ===== src/Transactions/Tests.antt =====
-- The properties of the transactions' modules, each at an input of its own.
use Prim.Native.Nat.{◌<◌}
use api_elrond_com.Common.{
  Bool-cases, inl, inr, subst, sym, ℕ, ◌≡◌, refl, String, none, some, List, [], ◌∷◌, map, Memᴰ,
  option_eq, string_eq, ◌==◌, if◌then◌else◌, arith,
}
use api_elrond_com.Transactions.{
  TransactionOperationAction, TransactionOperation, new_operation, TransactionLog,
  SmartContractResult, TransactionDetailed,
}
use api_elrond_com.Transactions.Trim.{PreviousHashes, trim_operations}
use api_elrond_com.Transactions.Trim.Kept.{IsSame, trim_operations_kept}
use api_elrond_com.Transactions.Logs.{logs_rounds, get_transaction_logs_from_elastic}
use api_elrond_com.Transactions.Logs.Chunks.{concat, IsChunked, get_transaction_logs_chunks}
use api_elrond_com.Transactions.Lookup.{attach_logs}
use api_elrond_com.Transactions.Lookup.Attach.{last_log, relog_all, attach_logs_last}

-- A transfer, and the same transfer in what it caused.
abbrev transfer_at : String → TransactionOperation
transfer_at hash = record new_operation {
  action = TransactionOperationAction.transfer;
  id = hash;
  sender = "erd1a";
  receiver = "erd1b";
}

abbrev caused : PreviousHashes
caused hash = if hash == "result" then some "tx" else none

abbrev rank_of : String → ℕ
rank_of hash = if hash == "result" then 1 else 0

caused-descends : (hash cause : String) → caused hash ≡ some cause → rank_of cause < rank_of hash
caused-descends hash cause h = elim (Bool-cases (hash == "result")) [
  | inl hit ↦
      let e : some "tx" ≡ some cause =
        subst (λ b. (if b then some "tx" else none) ≡ some cause) hit h in
      let same : "tx" ≡ cause = cc in
      subst (λ b. rank_of cause < (if b then 1 else 0)) (sym hit)
        (subst (λ c. rank_of c < 1) same (omega arith))
  | inr miss ↦
      let e : none ≡ some cause =
        subst (λ b. (if b then some "tx" else none) ≡ some cause) miss h in
      cc
]

abbrev two : List TransactionOperation
two = transfer_at "tx" ∷ transfer_at "result" ∷ []

trim_operations_kept_example :
    (kept : TransactionOperation) × Memᴰ kept (trim_operations (λ f xs. xs) "erd1a" two caused)
    × IsSame (transfer_at "result") kept
trim_operations_kept_example =
    trim_operations_kept caused rank_of caused-descends two (λ f xs. xs) (λ f op xs m. m) "erd1a"
      (transfer_at "result") (Memᴰ.tail (Memᴰ.head refl))

abbrev log_of : String → TransactionLog
log_of hash = record { id = some hash; address = ""; events = [] }

abbrev fetch : List String → List TransactionLog
fetch [] = []
fetch (h ∷ hashes) = log_of h ∷ fetch hashes

get_transaction_logs_chunks_example :
    (chunks : List (List String)) × (concat chunks ≡ "a" ∷ "b" ∷ [])
    × IsChunked 1000 chunks
    × (get_transaction_logs_from_elastic fetch ("a" ∷ "b" ∷ []) ≡ some (concat (map fetch chunks)))
get_transaction_logs_chunks_example = get_transaction_logs_chunks fetch ("a" ∷ "b" ∷ [])

-- Three hashes in rounds of two.
rounds_read :
    logs_rounds fetch 2 4 ("a" ∷ "b" ∷ "c" ∷ []) ≡ some (log_of "a" ∷ log_of "b" ∷ log_of "c" ∷ [])
unfolding logs_rounds
rounds_read = refl

abbrev result_at : String → SmartContractResult
result_at hash = record {
  hash = hash;
  nonce = 0;
  value = none;
  sender = "";
  receiver = "";
  prev_tx_hash = none;
  logs = none;
}

abbrev detailed : TransactionDetailed
detailed = record {
  tx_hash = "tx";
  sender = "erd1a";
  results = some (result_at "r1" ∷ result_at "r2" ∷ []);
  receipt = none;
  logs = none;
  operations = [];
}

abbrev three_logs : List TransactionLog
three_logs = log_of "r2" ∷ log_of "tx" ∷ log_of "r3" ∷ []

attach_logs_last_example : attach_logs "tx" detailed three_logs ≡ record detailed {
  logs = last_log "tx" detailed.logs three_logs;
  results = relog_all three_logs detailed.results;
}
attach_logs_last_example = attach_logs_last "tx" detailed three_logs refl
