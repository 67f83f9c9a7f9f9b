-- ===== src/Actions/Transfers.antt =====
-- The tokens that a call transfers: `getEsdtTransactionMetadata`, `getNftTransferMetadata`,
-- `getMultiTransferMetadata` and `getTransactionMetadata` of
-- src/endpoints/transactions/transaction-action/transaction.action.service.ts.
pub mod RoundTrip
use api_elrond_com.Common.{
  ℕ, zero, suc, ◌+◌, ◌*◌, String, Bool, true, false, not, ◌||◌, Option, none, some, List, [], ◌∷◌,
  ◌++◌, length, get_elem?, drop, text_length, text_slice, ltb, is_truthy, option_eq, string_eq,
  ◌==◌, if◌then◌else◌,
}
use api_elrond_com.Transactions.Properties.{TokenTransferProperties}
use api_elrond_com.Actions.{
  TransactionMetadataTransfer, TransactionMetadata, new_metadata, Transaction, Package,
}
use api_elrond_com.Actions.Throws.{Outcome, done, thrown, ◌>>=◌}
use api_elrond_com.Actions.Metadata.{Run, get_normal_transaction_metadata}

-- A result of the searches: `undefined`, where the call is not theirs.
abbrev pub Maybe : Type 0
Maybe = Outcome (Option TransactionMetadata)

-- `undefined`, after an early return.
abbrev pub leave : Maybe
leave = done none

-- The properties of a token, or of an item of a collection.
module _ (p : Package)
    (properties_of : String → Option String → Option TokenTransferProperties) where
  -- What is called beside the transfer: the argument at an index and those behind it.
  abbrev pub with_call_at : ℕ → List String → TransactionMetadata → Outcome TransactionMetadata
  with_call_at index args m =
      if ltb index (length args)
      then (do
        name ← p.hex_to_string (get_elem? args index)
        done (record m { function_name = some name; function_args = drop (index + 1) args }))
      else done m

  -- After the guards on the name and the arguments.
  abbrev pub esdt_transfer : TransactionMetadata → Maybe
  esdt_transfer m = do
    identifier ← p.hex_to_string (get_elem? m.function_args 0)
    value ← p.hex_to_big_int (get_elem? m.function_args 1)
    elim (properties_of identifier none) [
      | none ↦ leave
      | some properties ↦ do
        result ←
            with_call_at 2 m.function_args
              (record new_metadata { sender = m.sender; receiver = m.receiver })
        done (
            some (record result {
              transfers = some (record { properties = some properties; value = value } ∷ []);
              value = m.value;
            }))
    ]

  unfoldable pub get_esdt_transaction_metadata : TransactionMetadata → Maybe
  get_esdt_transaction_metadata m =
      if not (m.function_name == some "ESDTTransfer")
      then leave
      else if ltb (length m.function_args) 2
      then leave
      else esdt_transfer m

  abbrev pub nft_transfer : TransactionMetadata → Maybe
  nft_transfer m = do
    collection ← p.hex_to_string (get_elem? m.function_args 0)
    value ← p.hex_to_big_int (get_elem? m.function_args 2)
    receiver ← p.bech32_encode (get_elem? m.function_args 3)
    elim (properties_of collection (get_elem? m.function_args 1)) [
      | none ↦ leave
      | some properties ↦ do
        result ←
            with_call_at 4 m.function_args
              (record new_metadata { sender = m.sender; receiver = receiver; value = value })
        done (
            some (record result {
              transfers = some (record { properties = some properties; value = value } ∷ []);
            }))
    ]

  unfoldable pub get_nft_transfer_metadata : TransactionMetadata → Maybe
  get_nft_transfer_metadata m =
      if not (m.sender == m.receiver)
      then leave
      else if not (m.function_name == some "ESDTNFTTransfer")
      then leave
      else if ltb (length m.function_args) 4
      then leave
      else if not (p.is_address_valid (get_elem? m.function_args 3))
      then leave
      else nft_transfer m

  -- A long argument is a marshalled amount, of which the length stands in the fourth byte; `slice` takes
  -- an end that is `NaN` for 0.
  unfoldable pub parse_value_from_multi_transfer_value_arg : Option String → Outcome ℕ
  parse_value_from_multi_transfer_value_arg none = thrown
  parse_value_from_multi_transfer_value_arg (some raw) =
      if ltb 64 (text_length raw)
      then (do
        value_length ← p.hex_to_number (some (text_slice 6 8 raw))
        p.hex_to_big_int
            (some (elim value_length [ none ↦ "" | some n ↦ text_slice 8 (8 + n * 2) raw ])))
      else p.hex_to_big_int (some raw)

  -- A token without properties is left out. An empty nonce is none.
  abbrev pub push_transfer :
      ℕ
      → Option TokenTransferProperties
      → List TransactionMetadataTransfer
      → List TransactionMetadataTransfer
  push_transfer value none transfers = transfers
  push_transfer value (some properties) transfers =
      record { properties = some properties; value = value } ∷ transfers

  abbrev pub item_nonce : Option String → Option String
  item_nonce nonce = if is_truthy nonce then nonce else none

  -- The loop over the transfers, on the arguments from `index` on: the transfers, and the arguments that
  -- are left.
  unfoldable pub read_transfers :
      ℕ → List String → Outcome (List TransactionMetadataTransfer × (List String))
  unfolding parse_value_from_multi_transfer_value_arg
  read_transfers zero args = done ([], args)
  read_transfers (suc count) args = do
    identifier ← p.hex_to_string (get_elem? args 0)
    value ← parse_value_from_multi_transfer_value_arg (get_elem? args 2)
    (transfers, rest) ← read_transfers count (drop 3 args)
    done (
      push_transfer value (properties_of identifier (item_nonce (get_elem? args 1))) transfers,
      rest,
    )

  -- A count that is `NaN` runs the loop no times.
  abbrev pub or_zero : Option ℕ → ℕ
  or_zero none = 0
  or_zero (some n) = n

  abbrev pub multi_transfer : TransactionMetadata → Maybe
  unfolding read_transfers
  multi_transfer m = do
    receiver ← p.bech32_encode (get_elem? m.function_args 0)
    count ← p.hex_to_number (get_elem? m.function_args 1)
    (transfers, rest) ← read_transfers (or_zero count) (drop 2 m.function_args)
    result ←
        with_call_at 0 rest (record new_metadata {
          sender = m.sender;
          receiver = receiver;
          transfers = some transfers;
        })
    done (some result)

  unfoldable pub get_multi_transfer_metadata : TransactionMetadata → Maybe
  unfolding multi_transfer
  get_multi_transfer_metadata m =
      if not (m.sender == m.receiver)
      then leave
      else if not (m.function_name == some "MultiESDTNFTTransfer")
      then leave
      else if ltb (length m.function_args) 3
      then leave
      else if not (p.is_address_valid (get_elem? m.function_args 0))
      then leave
      else multi_transfer m

  -- The first of the three that finds a transfer, or the call itself.
  unfoldable pub transfer_metadata : TransactionMetadata → Outcome TransactionMetadata
  unfolding get_esdt_transaction_metadata get_nft_transfer_metadata get_multi_transfer_metadata
  transfer_metadata m = do
    esdt ← get_esdt_transaction_metadata m
    elim esdt [
      | some found ↦ done found
      | none ↦ do
        nft ← get_nft_transfer_metadata m
        elim nft [
          | some found ↦ done found
          | none ↦ do
            multi ← get_multi_transfer_metadata m
            elim multi [ some found ↦ done found | none ↦ done m ]
        ]
    ]

  abbrev pub finish : Run → Outcome TransactionMetadata
  finish Run.out_of_fuel = thrown
  finish (Run.finished thrown) = thrown
  finish (Run.finished (done m)) = transfer_metadata m

  -- The text of a transaction, decoded, is less than the fuel.
  unfoldable pub get_transaction_metadata : ℕ → Transaction → Outcome TransactionMetadata
  unfolding get_normal_transaction_metadata transfer_metadata
  get_transaction_metadata fuel t = finish (get_normal_transaction_metadata p fuel t)
