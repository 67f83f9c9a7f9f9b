-- ===== src/Transactions/Operations.antt =====
-- The operations that a transaction's logs and results tell of: `getOperationsForTransaction` and its
-- parts, of src/endpoints/tokens/token.transfer.service.ts.
use api_elrond_com.Common.{
  String, Bool, not, ◌&&◌, ◌||◌, Option, none, some, List, [], ◌∷◌, ◌++◌, map, filter, get_elem?,
  nat_eq, option_eq, string_eq, ◌==◌, ◌+text◌, is_truthy, nat_beq, if◌then◌else◌,
}
use api_elrond_com.Transactions.{
  TransactionOperationAction, TransactionOperationType, operation_type_eq, TransactionOperation,
  new_operation, TransactionLogEvent, TransactionLog, SmartContractResult,
}
use api_elrond_com.Transactions.Properties.{TokenTransferProperties}

-- `BinaryUtils` of the package `@multiversx/sdk-nestjs`: `none` is `undefined`, or an error that is thrown.
pub record Binary : Type 0 where
  pub base64_decode : String → String
  pub try_hex : Option String → Option String
  pub try_big_int : Option String → Option String
  pub try_address : Option String → Option String
  pub address : Option String → Option String
  pub big_int : Option String → Option String

abbrev pub esdt_actions : List (String × TransactionOperationAction)
esdt_actions =
    ("ESDTNFTTransfer", TransactionOperationAction.transfer)
    ∷ ("ESDTNFTBurn", TransactionOperationAction.burn)
    ∷ ("ESDTNFTAddQuantity", TransactionOperationAction.add_quantity)
    ∷ ("ESDTNFTCreate", TransactionOperationAction.create)
    ∷ ("MultiESDTNFTTransfer", TransactionOperationAction.transfer)
    ∷ ("ESDTTransfer", TransactionOperationAction.transfer)
    ∷ ("ESDTBurn", TransactionOperationAction.burn)
    ∷ ("ESDTLocalMint", TransactionOperationAction.local_mint)
    ∷ ("ESDTLocalBurn", TransactionOperationAction.local_burn)
    ∷ ("ESDTWipe", TransactionOperationAction.wipe)
    ∷ ("ESDTFreeze", TransactionOperationAction.freeze)
    ∷ []

abbrev pub find_action :
    String → List (String × TransactionOperationAction) → Option TransactionOperationAction
find_action identifier [] = none
find_action identifier ((name, action) ∷ rest) =
    if identifier == name then some action else find_action identifier rest

unfoldable pub get_operation_esdt_action : String → Option TransactionOperationAction
get_operation_esdt_action identifier = find_action identifier esdt_actions

-- A result with a nonce or without a value is left out.
abbrev pub sc_result_operation : SmartContractResult → TransactionOperation
sc_result_operation r = record new_operation {
  action = TransactionOperationAction.transfer;
  type = TransactionOperationType.egld;
  id = r.hash;
  sender = r.sender;
  receiver = r.receiver;
  value = r.value;
}

abbrev pub moves_value : SmartContractResult → Bool
moves_value r = nat_beq r.nonce 0 && not ((r.value == none) || (r.value == some "0"))

unfoldable pub get_operations_for_sc_results : List SmartContractResult → List TransactionOperation
get_operations_for_sc_results results = map sc_result_operation (filter moves_value results)

abbrev pub id_of : TransactionLog → String
id_of log = elim (log.id) [ none ↦ "" | some id ↦ id ]

module _ (binary : Binary) where
  abbrev pub decode_truthy : Option String → Option String
  decode_truthy none = none
  decode_truthy (some s) = if s == "" then none else some (binary.base64_decode s)

  -- `writeLog` and `signalError`.
  unfoldable pub get_transaction_log_operation :
      TransactionLog
      → TransactionLogEvent
      → TransactionOperationAction
      → TransactionOperationType
      → String
      → TransactionOperation
  get_transaction_log_operation log event action type receiver = record new_operation {
    id = id_of log;
    action = action;
    type = type;
    sender = event.address;
    receiver = receiver;
    text = decode_truthy event.text;
    message = decode_truthy (get_elem? event.topics 1);
  }

  -- An address or a value that cannot be read throws, which is caught.
  unfoldable pub get_transaction_transfer_value_operation :
      TransactionLog → TransactionLogEvent → Option TransactionOperation
  get_transaction_transfer_value_operation log event =
      elim (binary.address (get_elem? event.topics 0)) [
        | none ↦ none
        | some sender ↦ elim (binary.address (get_elem? event.topics 1)) [
          | none ↦ none
          | some receiver ↦ elim (binary.big_int (get_elem? event.topics 2)) [
            | none ↦ none
            | some value ↦ some (record new_operation {
              id = id_of log;
              action = TransactionOperationAction.transfer;
              type = TransactionOperationType.egld;
              sender = sender;
              receiver = receiver;
              value = some value;
            })
          ]
        ]
      ]

  abbrev pub dashed : String → Option String → String
  dashed identifier none = identifier
  dashed identifier (some n) = if n == "" then identifier else identifier +text "-" +text n

  abbrev pub receiver_of : TransactionLog → Option String → String
  receiver_of log topic = elim (binary.try_address topic) [
    | none ↦ log.address
    | some address ↦ address
  ]

  -- With a nonce the identifier is that of an item of the collection. Without a first topic the decoder
  -- throws, which is caught.
  unfoldable pub get_transaction_nft_operation :
      TransactionLog
      → TransactionLogEvent
      → TransactionOperationAction
      → (String → Option TokenTransferProperties)
      → Option TransactionOperation
  get_transaction_nft_operation log event action properties_of = elim (get_elem? event.topics 0) [
    | none ↦ none
    | some topic ↦
        let token = binary.base64_decode topic in
        let nonce = binary.try_hex (get_elem? event.topics 1) in
        let properties = properties_of token in
        some (record {
          id = id_of log;
          action = action;
          type =
              if is_truthy nonce
              then TransactionOperationType.nft
              else TransactionOperationType.esdt;
          esdt_type = elim properties [ none ↦ none | some p ↦ some p.type ];
          collection = if is_truthy nonce then some token else none;
          identifier = dashed token nonce;
          ticker = elim properties [ none ↦ none | some p ↦ some p.ticker ];
          name = elim properties [ none ↦ none | some p ↦ some p.name ];
          sender = event.address;
          receiver = receiver_of log (get_elem? event.topics 3);
          value = binary.try_big_int (get_elem? event.topics 2);
          decimals = elim properties [ none ↦ none | some p ↦ p.decimals ];
          svg_url = elim properties [ none ↦ none | some p ↦ some p.svg_url ];
          text = none;
          message = none;
        })
  ]

  abbrev pub esdt_operation :
      TransactionLog
      → TransactionLogEvent
      → (String → Option TokenTransferProperties)
      → Option TransactionOperation
  esdt_operation log event properties_of = elim (get_operation_esdt_action event.identifier) [
    | none ↦ none
    | some action ↦ get_transaction_nft_operation log event action properties_of
  ]

  abbrev pub or_else :
      Option TransactionOperation → Option TransactionOperation → Option TransactionOperation
  or_else none y = y
  or_else (some x) y = some x

  unfoldable pub event_operation :
      String
      → (String → Option TokenTransferProperties)
      → TransactionLog
      → TransactionLogEvent
      → Option TransactionOperation
  unfolding get_transaction_log_operation get_transaction_transfer_value_operation
      get_transaction_nft_operation get_operation_esdt_action
  event_operation sender properties_of log event =
      if event.identifier == "writeLog"
      then some (
          get_transaction_log_operation log event TransactionOperationAction.write_log
            TransactionOperationType.log sender)
      else if event.identifier == "signalError"
      then some (
          get_transaction_log_operation log event TransactionOperationAction.signal_error
            TransactionOperationType.error sender)
      else if event.identifier == "transferValueOnly"
      then or_else (get_transaction_transfer_value_operation log event)
          (esdt_operation log event properties_of)
      else esdt_operation log event properties_of

  unfoldable pub events_operations :
      String
      → (String → Option TokenTransferProperties)
      → TransactionLog
      → List TransactionLogEvent
      → List TransactionOperation
  unfolding event_operation
  events_operations sender properties_of log [] = []
  events_operations sender properties_of log (event ∷ events) =
      let rest = events_operations sender properties_of log events in
      elim (event_operation sender properties_of log event) [ none ↦ rest | some op ↦ op ∷ rest ]

  unfoldable pub logs_operations :
      String
      → (String → Option TokenTransferProperties)
      → List TransactionLog
      → List TransactionOperation
  unfolding events_operations
  logs_operations sender properties_of [] = []
  logs_operations sender properties_of (log ∷ logs) =
      events_operations sender properties_of log log.events
      ++ logs_operations sender properties_of logs

  -- The identifiers of the tokens in the events of one log: a first topic that is missing throws.
  unfoldable pub events_identifiers : List TransactionLogEvent → Option (List String)
  unfolding get_operation_esdt_action
  events_identifiers [] = some []
  events_identifiers (event ∷ events) = elim (events_identifiers events) [
    | none ↦ none
    | some rest ↦ elim (get_operation_esdt_action event.identifier) [
      | none ↦ some rest
      | some action ↦ elim (get_elem? event.topics 0) [
        | none ↦ none
        | some topic ↦ some (binary.base64_decode topic ∷ rest)
      ]
    ]
  ]

  unfoldable pub logs_identifiers : List TransactionLog → Option (List String)
  unfolding events_identifiers
  logs_identifiers [] = some []
  logs_identifiers (log ∷ logs) = elim (events_identifiers log.events) [
    | none ↦ none
    | some here ↦ elim (logs_identifiers logs) [ none ↦ none | some rest ↦ some (here ++ rest) ]
  ]

-- The names of the items from the indexer; `none` is an item that it does not have.
unfoldable pub name_nfts :
    (String → Option (Option String)) → List TransactionOperation → List TransactionOperation
name_nfts name_of [] = []
name_nfts name_of (op ∷ operations) =
    elim (name_of op.identifier) [ none ↦ op | some name ↦ record op { name = name } ]
    ∷ name_nfts name_of operations

-- The services that are asked: the properties of a batch of tokens, the items of a list of identifiers,
-- and `distinct` of the package.
pub record TransferServices : Type 0 where
  pub binary : Binary
  pub properties_of : List String → String → Option TokenTransferProperties
  pub names_of : List String → String → Option (Option String)
  pub distinct : List String → List String

module _ (services : TransferServices) where
  abbrev pub nft_identifiers : List TransactionOperation → List String
  nft_identifiers operations = services.distinct (
      map (λ (op : TransactionOperation). op.identifier)
        (filter (λ (op : TransactionOperation). op.type == TransactionOperationType.nft)
          operations))

  abbrev pub with_names : List TransactionOperation → List TransactionOperation
  with_names operations = elim (nft_identifiers operations) [
    | [] ↦ operations
    | id ∷ ids ↦ name_nfts (services.names_of (id ∷ ids)) operations
  ]

  unfoldable pub get_operations_for_transaction_logs :
      List TransactionLog → String → Option (List TransactionOperation)
  unfolding logs_operations logs_identifiers name_nfts
  get_operations_for_transaction_logs [] sender = some []
  get_operations_for_transaction_logs (log ∷ logs) sender =
      elim (logs_identifiers services.binary (log ∷ logs)) [
        | none ↦ none
        | some identifiers ↦ some (
            with_names (
              logs_operations services.binary sender (services.properties_of identifiers)
                (log ∷ logs)))
      ]

  unfoldable pub get_operations_for_transaction :
      List SmartContractResult → List TransactionLog → String → Option (List TransactionOperation)
  unfolding get_operations_for_transaction_logs get_operations_for_sc_results
  get_operations_for_transaction results logs sender =
      elim (get_operations_for_transaction_logs logs sender) [
        | none ↦ none
        | some operations ↦ some (get_operations_for_sc_results results ++ operations)
      ]
