-- ===== src/Transactions/Gateway.antt =====
-- A transaction as the gateway has it: `tryGetTransactionFromGateway` of
-- src/endpoints/transactions/transaction.get.service.ts.
use api_elrond_com.Common.{
  ℕ, String, Bool, false, not, ◌&&◌, Option, none, some, List, [], ◌∷◌, option_eq, string_eq, ◌==◌,
  if◌then◌else◌,
}
use api_elrond_com.Transactions.{TransactionLog}

-- The numbers of a result and a receipt come as numbers, and are written as texts. `none` is a field
-- whose value is missing.
pub record GatewayResult : Type 0 where
  pub hash : String
  pub call_type : Option ℕ
  pub value : Option ℕ
  pub text : Option String

pub record GatewayReceipt : Type 0 where
  pub value : Option ℕ
  pub sender : String

pub record GatewayTransaction : Type 0 where
  pub sender : String
  pub receiver : String
  pub nonce : ℕ
  pub value : String
  pub status : String
  pub miniblock_type : Option String
  pub text : Option String
  pub receipt : Option GatewayReceipt
  pub smart_contract_results : Option (List GatewayResult)
  pub logs : Option TransactionLog

pub record ShownResult : Type 0 where
  pub hash : String
  pub call_type : String
  pub value : String
  pub text : Option String

pub record ShownReceipt : Type 0 where
  pub value : String
  pub sender : String

-- Of the transaction that is shown, the fields that are not copied as they are, and those that identify it.
pub record ShownTransaction : Type 0 where
  pub tx_hash : String
  pub sender : String
  pub receiver : String
  pub nonce : ℕ
  pub value : String
  pub status : String
  pub text : Option String
  pub sc_results : List ShownResult
  pub receipt : Option ShownReceipt
  pub logs : Option TransactionLog

-- The gateway, the search of the indexer by sender and nonce, and the package: `none` of `get` is an
-- error that is thrown.
pub record GatewayServices : Type 0 where
  pub get : String → Option (Option GatewayTransaction)
  pub get_by_sender_and_nonce : String → ℕ → List String
  pub to_text : ℕ → String
  pub base64_encode : String → String

abbrev pub first_or_undefined : List String → Option String
first_or_undefined [] = none
first_or_undefined (h ∷ hashes) = some h

module _ (services : GatewayServices) where
  -- Text that is empty is left as it is.
  abbrev pub encode_text : Option String → Option String
  encode_text none = none
  encode_text (some text) = if text == "" then some text else some (services.base64_encode text)

  -- `toString` of a value that is missing throws.
  unfoldable pub show_result : GatewayResult → Option ShownResult
  show_result r = elim (r.call_type) [
    | none ↦ none
    | some call_type ↦ elim (r.value) [
      | none ↦ none
      | some value ↦ some (record {
        hash = r.hash;
        call_type = services.to_text call_type;
        value = services.to_text value;
        text = encode_text r.text;
      })
    ]
  ]

  unfoldable pub show_results : List GatewayResult → Option (List ShownResult)
  unfolding show_result
  show_results [] = some []
  show_results (r ∷ results) = elim (show_result r) [
    | none ↦ none
    | some shown ↦ elim (show_results results) [ none ↦ none | some others ↦ some (shown ∷ others) ]
  ]

  abbrev pub results_of : Option (List GatewayResult) → Option (List ShownResult)
  results_of none = some []
  results_of (some results) = show_results results

  abbrev pub show_receipt : Option GatewayReceipt → Option (Option ShownReceipt)
  show_receipt none = some none
  show_receipt (some r) = elim (r.value) [
    | none ↦ none
    | some value ↦ some (some (record { value = services.to_text value; sender = r.sender }))
  ]

  abbrev pub show_transaction : String → GatewayTransaction → Option ShownTransaction
  unfolding show_results
  show_transaction tx_hash t = elim (show_receipt t.receipt) [
    | none ↦ none
    | some receipt ↦ elim (results_of t.smart_contract_results) [
      | none ↦ none
      | some results ↦ some (record {
        tx_hash = tx_hash;
        sender = t.sender;
        receiver = t.receiver;
        nonce = t.nonce;
        value = t.value;
        status = t.status;
        text = t.text;
        sc_results = results;
        receipt = receipt;
        logs = t.logs;
      })
    ]
  ]

  -- Another transaction of the sender with the nonce, which the indexer has.
  abbrev pub is_replaced : String → GatewayTransaction → Bool
  is_replaced tx_hash t =
      elim (first_or_undefined (services.get_by_sender_and_nonce t.sender t.nonce)) [
        | none ↦ false
        | some existing ↦ not (existing == tx_hash)
      ]

  -- What is thrown is caught, and gives null, as `none`.
  unfoldable pub try_get_transaction_from_gateway : String → Bool → Option ShownTransaction
  unfolding show_transaction
  try_get_transaction_from_gateway tx_hash query_in_elastic = elim (services.get tx_hash) [
    | none ↦ none
    | some answer ↦ elim answer [
      | none ↦ none
      | some t ↦
          if t.miniblock_type == some "SmartContractResultBlock"
          then none
          else if (t.status == "pending") && query_in_elastic
          then if is_replaced tx_hash t then none else show_transaction tx_hash t
          else show_transaction tx_hash t
    ]
  ]
