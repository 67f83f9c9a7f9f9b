-- ===== src/Transactions/Lookup/Attach.antt =====
-- Which log the transaction and each of its results end up with.
use mathlib.Core.List.{map-id}
use api_elrond_com.Common.{
  ◌≡◌, refl, ap, ◌∙◌, String, Bool, true, false, not, ◌&&◌, Option, none, some, List, [], ◌∷◌, map,
  any, option_eq, string_eq, ◌==◌, option_text_iff, Bool-cases, inl, inr, if◌then◌else◌, arith,
}
use api_elrond_com.Transactions.{TransactionLog, SmartContractResult, TransactionDetailed}
use api_elrond_com.Transactions.Lookup.{attach_to_result, attach_log, attach_logs}

-- The last log that stands under the hash, or the one that was there.
abbrev pub last_log : String → Option TransactionLog → List TransactionLog → Option TransactionLog
last_log hash old [] = old
last_log hash old (log ∷ logs) = last_log hash (if log.id == some hash then some log else old) logs

abbrev pub relog : List TransactionLog → SmartContractResult → SmartContractResult
relog logs r = record r { logs = last_log r.hash r.logs logs }

abbrev pub relog_all :
    List TransactionLog → Option (List SmartContractResult) → Option (List SmartContractResult)
relog_all logs none = none
relog_all logs (some results) = some (map (relog logs) results)

abbrev pub has_hash : Option String → List SmartContractResult → Bool
has_hash id results = any (λ (r : SmartContractResult). id == some r.hash) results

abbrev pub distinct_hashes : List SmartContractResult → Bool
distinct_hashes [] = true
distinct_hashes (r ∷ results) = not (has_hash (some r.hash) results) && distinct_hashes results

abbrev pub other_hashes : String → Option (List SmartContractResult) → Bool
other_hashes tx_hash none = true
other_hashes tx_hash (some results) =
    not (has_hash (some tx_hash) results) && distinct_hashes results

relog-still :
    (log : TransactionLog) (results : List SmartContractResult)
    → has_hash log.id results ≡ false
    → map (relog (log ∷ [])) results ≡ results
relog-still log [] h = refl
relog-still log (r ∷ results) h = elim (Bool-cases (log.id == some r.hash)) [
  | inl hit ↦ absurd (ground arith)
  | inr miss ↦ rw (miss, relog-still log results (ground arith)) refl
]

attach_to_result-relog :
    (log : TransactionLog) (results : List SmartContractResult)
    → distinct_hashes results ≡ true
    → attach_to_result log results ≡ map (relog (log ∷ [])) results
unfolding attach_to_result
attach_to_result-relog log [] h = refl
attach_to_result-relog log (r ∷ results) h = elim (Bool-cases (log.id == some r.hash)) [
  | inl hit ↦
      let same : log.id ≡ some r.hash = (option_text_iff _ _).0 hit in
      let still : has_hash (some r.hash) results ≡ false = ground arith in
      rw (hit, relog-still log results (rw same still)) refl
  | inr miss ↦ rw (miss, attach_to_result-relog log results (ground arith)) refl
]

has_hash-relog :
    (id : Option String) (log : TransactionLog) (results : List SmartContractResult)
    → has_hash id (map (relog (log ∷ [])) results) ≡ has_hash id results
has_hash-relog id log [] = refl
has_hash-relog id log (r ∷ results) = rw (has_hash-relog id log results) refl

distinct_hashes-relog :
    (log : TransactionLog) (results : List SmartContractResult)
    → distinct_hashes (map (relog (log ∷ [])) results) ≡ distinct_hashes results
distinct_hashes-relog log [] = refl
distinct_hashes-relog log (r ∷ results) =
    rw (has_hash-relog (some r.hash) log results, distinct_hashes-relog log results) refl

relog-cons :
    (log : TransactionLog) (logs : List TransactionLog) (results : List SmartContractResult)
    → map (relog logs) (map (relog (log ∷ [])) results) ≡ map (relog (log ∷ logs)) results
relog-cons log logs [] = refl
relog-cons log logs (r ∷ results) = rw (relog-cons log logs results) refl

-- One log, wherever it goes.
attach_log-relog :
    (tx_hash : String) (t : TransactionDetailed) (results : Option (List SmartContractResult))
    (log : TransactionLog)
    → other_hashes tx_hash results ≡ true
    → attach_log tx_hash (record t { results = results }) log ≡ record t {
      logs = last_log tx_hash t.logs (log ∷ []);
      results = relog_all (log ∷ []) results;
    }
unfolding attach_log
attach_log-relog tx_hash t none log h = elim (Bool-cases (log.id == some tx_hash)) [
  | inl hit ↦ rw hit refl
  | inr miss ↦ rw miss refl
]
attach_log-relog tx_hash t (some results) log h = elim (Bool-cases (log.id == some tx_hash)) [
  | inl hit ↦
      let same : log.id ≡ some tx_hash = (option_text_iff _ _).0 hit in
      let still : has_hash (some tx_hash) results ≡ false = ground arith in
      rw (hit, relog-still log results (rw same still)) refl
  | inr miss ↦ rw (miss, attach_to_result-relog log results (ground arith)) refl
]

other_hashes-relog :
    (tx_hash : String) (log : TransactionLog) (results : Option (List SmartContractResult))
    → other_hashes tx_hash (relog_all (log ∷ []) results) ≡ other_hashes tx_hash results
other_hashes-relog tx_hash log none = refl
other_hashes-relog tx_hash log (some results) =
    rw (has_hash-relog (some tx_hash) log results, distinct_hashes-relog log results) refl

relog_all-cons :
    (log : TransactionLog) (logs : List TransactionLog)
    (results : Option (List SmartContractResult))
    → relog_all logs (relog_all (log ∷ []) results) ≡ relog_all (log ∷ logs) results
relog_all-cons log logs none = refl
relog_all-cons log logs (some results) = ap (λ rs. some rs) (relog-cons log logs results)

relog_all_none : (results : Option (List SmartContractResult)) → relog_all [] results ≡ results
relog_all_none none = refl
relog_all_none (some results) = ap (λ rs. some rs) (map-id results)

-- Where the hashes of the results are distinct and none is the transaction's, the loop over the logs
-- gives the transaction the last log under its hash and each result the last log under its own; what no
-- log stands for keeps the log that it had, and nothing else changes.
pub attach_logs_last :
    (tx_hash : String) (t : TransactionDetailed) (logs : List TransactionLog)
    → other_hashes tx_hash t.results ≡ true
    → attach_logs tx_hash t logs
      ≡ record t { logs = last_log tx_hash t.logs logs; results = relog_all logs t.results }
unfolding attach_logs
attach_logs_last tx_hash t [] h = rw (relog_all_none t.results) refl
attach_logs_last tx_hash t (log ∷ logs) h =
    ap (λ u. attach_logs tx_hash u logs) (attach_log-relog tx_hash t t.results log h)
    ∙ attach_logs_last tx_hash
        (record t {
          logs = last_log tx_hash t.logs (log ∷ []);
          results = relog_all (log ∷ []) t.results;
        })
        logs (other_hashes-relog tx_hash log t.results ∙ h)
    ∙ rw (relog_all-cons log logs t.results) refl
