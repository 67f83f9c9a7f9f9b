-- ===== src/Actions/EsdtNft.antt =====
-- Transfers and freezes of tokens:
-- src/endpoints/transactions/transaction-action/recognizers/esdt/transaction.action.esdt.nft.recognizer.service.ts.
use api_elrond_com.Common.{
  ℕ, String, not, ◌&&◌, ◌||◌, Option, none, some, List, [], ◌∷◌, map, get_elem?, all, to_text,
  ◌+text◌, join, option_eq, string_eq, ◌==◌, if◌then◌else◌,
}
use api_elrond_com.Transactions.Properties.{TokenTransferProperties}
use api_elrond_com.Actions.{
  TransactionMetadataTransfer, TransactionMetadata, TransactionActionCategory, ActionArguments,
  TransactionAction, Package,
}
use api_elrond_com.Actions.Throws.{Outcome, done, ◌>>=◌}

-- `getNftTransferDetails` of each, those that are undefined left out.
abbrev pub transfer_details : List TransactionMetadataTransfer → List (TokenTransferProperties × ℕ)
transfer_details [] = []
transfer_details (t ∷ transfers) = elim (t.properties) [
  | none ↦ transfer_details transfers
  | some properties ↦ (properties, t.value) ∷ transfer_details transfers
]

abbrev pub decimals_of : Option TokenTransferProperties → Option ℕ
decimals_of none = none
decimals_of (some p) = p.decimals

abbrev pub ticker_of : Option TokenTransferProperties → Option String
ticker_of none = none
ticker_of (some p) = some p.ticker

module _ (p : Package) where
  abbrev pub shown_function : TransactionMetadata → Option String
  shown_function m = elim (m.function_name) [
    | none ↦ none
    | some f ↦ if not (f == "") && p.is_function_name f then some f else none
  ]

  abbrev pub shown_args : TransactionMetadata → Option (List String)
  shown_args m = if all p.is_hex m.function_args then some m.function_args else none

  unfoldable pub get_multi_transfer_action :
      TransactionMetadata → TransactionActionCategory → String → String → Option TransactionAction
  get_multi_transfer_action m category name description = elim (m.transfers) [
    | none ↦ none
    | some transfers ↦ some (record {
      category = category;
      name = name;
      description = description;
      arguments =
          ActionArguments.transferred (transfer_details transfers) m.receiver (shown_function m)
            (shown_args m);
    })
  ]

  abbrev pub with_ticker : TransactionMetadataTransfer → String
  with_ticker t =
      p.to_denominated_string t.value (decimals_of t.properties)
      +text " "
      +text to_text (ticker_of t.properties)

  unfoldable pub get_multi_transfer_action_with_ticker :
      TransactionMetadata → TransactionActionCategory → String → String → Option TransactionAction
  unfolding get_multi_transfer_action
  get_multi_transfer_action_with_ticker m category name action = elim (m.transfers) [
    | none ↦ none
    | some transfers ↦
        get_multi_transfer_action m category name
          (action +text " " +text join ", " (map with_ticker transfers))
  ]

  abbrev pub get_token_transfer_description : TokenTransferProperties → ℕ → String
  get_token_transfer_description t value =
      p.to_denominated_string value t.decimals
      +text " "
      +text t.name
      +text " ("
      +text t.ticker
      +text ")"

  abbrev pub get_nft_transfer_description : TokenTransferProperties → ℕ → String
  get_nft_transfer_description t value =
      if t.type == "MetaESDT"
      then p.to_denominated_string value t.decimals
        +text " "
        +text t.name
        +text " ("
        +text to_text t.identifier
        +text ")"
      else if t.type == "NonFungibleESDT"
      then "NFT of collection " +text t.name +text " (" +text to_text t.identifier +text ")"
      else if t.type == "SemiFungibleESDT"
      then "quantity "
        +text p.to_text value
        +text " for NFT of collection "
        +text t.name
        +text " ("
        +text to_text t.identifier
        +text ")"
      else "Unknown"

  abbrev pub transfer_descriptions : List TransactionMetadataTransfer → List String
  transfer_descriptions [] = []
  transfer_descriptions (t ∷ transfers) = elim (t.properties) [
    | none ↦ transfer_descriptions transfers
    | some properties ↦
        (if properties.type == "FungibleESDT"
          then get_token_transfer_description properties t.value
          else get_nft_transfer_description properties t.value)
        ∷ transfer_descriptions transfers
  ]

  unfoldable pub get_multi_transfer_action_with_full_description :
      TransactionMetadata → TransactionActionCategory → String → String → Option TransactionAction
  unfolding get_multi_transfer_action
  get_multi_transfer_action_with_full_description m category name action = elim (m.transfers) [
    | none ↦ none
    | some transfers ↦ get_multi_transfer_action m category name (
        action
        +text " "
        +text join ", " (transfer_descriptions transfers)
        +text " to "
        +text m.receiver)
  ]

  unfoldable pub recognize_transfer : TransactionMetadata → Option TransactionAction
  unfolding get_multi_transfer_action
  recognize_transfer m =
      get_multi_transfer_action m TransactionActionCategory.esdt_nft "transfer" "Transfer"

  module _ (properties_of : String → Option String → Option TokenTransferProperties)
      (esdt_contract_address : String) where
    abbrev pub freeze_action : TransactionMetadata → Outcome (Option TransactionAction)
    freeze_action m = do
      token ← p.hex_to_string (get_elem? m.function_args 0)
      elim (properties_of token none) [
        | none ↦ done none
        | some properties ↦
            if not (p.is_address_valid (get_elem? m.function_args 1)) then done none else (do
              address ← p.bech32_encode (get_elem? m.function_args 1)
              done (
                  some (record {
                    category = TransactionActionCategory.esdt_nft;
                    name = "freeze";
                    description =
                        "Freezed token " +text token +text " balance for address " +text address;
                    arguments = ActionArguments.frozen address properties;
                  })))
      ]

    unfoldable pub recognize_freeze : TransactionMetadata → Outcome (Option TransactionAction)
    recognize_freeze m =
        if not (m.function_name == some "freeze") || not (m.receiver == esdt_contract_address)
        then done none
        else freeze_action m

    -- `recognize`
    unfoldable pub recognize_esdt_nft : TransactionMetadata → Outcome (Option TransactionAction)
    unfolding recognize_transfer recognize_freeze
    recognize_esdt_nft m = elim (recognize_transfer m) [
      | some action ↦ done (some action)
      | none ↦ recognize_freeze m
    ]
