-- ===== src/Actions/Metadata.antt =====
-- What a transaction calls: `getNormalTransactionMetadata` of
-- src/endpoints/transactions/transaction-action/transaction.action.service.ts.
pub mod Relayed
use api_elrond_com.Common.{
  ℕ, zero, suc, ◌%◌, String, Bool, true, false, not, ◌&&◌, Option, none, some, List, [], ◌∷◌,
  length, get_elem?, set, all, split, text_length, ltb, leb, nat_beq, is_truthy, option_eq,
  string_eq, ◌==◌, if◌then◌else◌,
}
use api_elrond_com.Actions.{TransactionMetadata, new_metadata, Transaction, Package}
use api_elrond_com.Actions.Throws.{Outcome, done, thrown, ◌>>=◌}

-- A run of the recursion: also that the fuel is not enough, which nothing catches.
pub data Run : Type 0 where
  finished : Outcome TransactionMetadata → Run
  out_of_fuel : Run

abbrev pub is_relayed : TransactionMetadata → Bool
is_relayed m = (m.function_name == some "relayedTx") && nat_beq (length m.function_args) 1

abbrev pub is_relayed_v2 : TransactionMetadata → Bool
is_relayed_v2 m = (m.function_name == some "relayedTxV2") && nat_beq (length m.function_args) 4

module _ (p : Package) where
  unfoldable pub is_smart_contract_argument : String → Bool
  is_smart_contract_argument arg =
      if not (p.is_hex arg)
      then false
      else if not (nat_beq (text_length arg % 2) 0)
      then false
      else true

  -- 64 is `@`. The parts after the first are arguments, where all of them are; else there is no call.
  abbrev pub with_call : List String → TransactionMetadata → TransactionMetadata
  with_call [] m = m
  with_call (name ∷ args) m =
      if all is_smart_contract_argument args
      then record m { function_name = some name; function_args = args }
      else m

  -- Text that is empty is as none.
  abbrev pub with_text : Option String → TransactionMetadata → TransactionMetadata
  with_text none m = m
  with_text (some text) m = if text == "" then m else with_call (split 64 (p.base64_decode text)) m

  unfoldable pub direct_metadata : Transaction → Outcome TransactionMetadata
  unfolding is_smart_contract_argument
  direct_metadata t = do
    value ← p.big_int t.value
    done (
        with_text t.text
          (record new_metadata { sender = t.sender; receiver = t.receiver; value = value }))

  -- The transaction that is carried. The fields of the parsed text are those of `relayedTransaction`, of
  -- which the two addresses are written anew.
  unfoldable pub relayed_transaction : TransactionMetadata → Outcome Transaction
  relayed_transaction m = do
    text ← p.hex_to_string (get_elem? m.function_args 0)
    inner ← p.parse_transaction text
    sender ← p.bech32_encode (some (← p.base64_to_hex inner.sender))
    receiver ← p.bech32_encode (some (← p.base64_to_hex inner.receiver))
    done (record inner { sender = sender; receiver = receiver })

  unfoldable pub relayed_transaction_v2 : Transaction → TransactionMetadata → Outcome Transaction
  relayed_transaction_v2 t m = do
    receiver ← p.bech32_encode (get_elem? m.function_args 0)
    text ← p.hex_to_string (get_elem? m.function_args 2)
    done (record {
      sender = t.receiver;
      receiver = receiver;
      value = "0";
      text = some (p.base64_encode text);
      is_smart_contract_result = false;
    })

  -- The one of the two that the call is, if it is one and can be read.
  unfoldable pub carried : Transaction → TransactionMetadata → Outcome Transaction
  unfolding relayed_transaction relayed_transaction_v2
  carried t m =
      if is_relayed m
      then relayed_transaction m
      else if is_relayed_v2 m
      then relayed_transaction_v2 t m
      else thrown

  -- The results of a transfer of several tokens, or of one with a nonce. An address that cannot be
  -- decoded throws before anything is written, and that is caught.
  abbrev pub multi_receiver : TransactionMetadata → TransactionMetadata
  multi_receiver m = elim (m.function_args) [
    | [] ↦ m
    | a ∷ args ↦
        if leb (text_length a) 4
        then (elim (p.bech32_decode m.receiver) [
          | done hex ↦ record m { function_args = hex ∷ a ∷ args; receiver = m.sender }
          | thrown ↦ m
        ])
        else record m { receiver = m.sender }
  ]

  abbrev pub nft_receiver : TransactionMetadata → TransactionMetadata
  nft_receiver m =
      if ltb 3 (length m.function_args)
      then (elim (p.bech32_decode m.receiver) [
        | done hex ↦ record m { function_args = set m.function_args 3 hex; receiver = m.sender }
        | thrown ↦ m
      ])
      else m

  unfoldable pub adjust_result : Transaction → TransactionMetadata → TransactionMetadata
  adjust_result t m =
      if not t.is_smart_contract_result
      then m
      else if m.function_name == some "MultiESDTNFTTransfer"
      then multi_receiver m
      else if m.function_name == some "ESDTNFTTransfer"
      then nft_receiver m
      else m

  -- What is thrown for the carried transaction is caught, and the call is then an ordinary one.
  abbrev pub or_direct : Transaction → TransactionMetadata → Run → Run
  or_direct t m Run.out_of_fuel = Run.out_of_fuel
  or_direct t m (Run.finished (done inner)) = Run.finished (done inner)
  or_direct t m (Run.finished thrown) = Run.finished (done (adjust_result t m))

  unfoldable pub get_normal_transaction_metadata : ℕ → Transaction → Run
  unfolding direct_metadata carried adjust_result
  get_normal_transaction_metadata zero t = Run.out_of_fuel
  get_normal_transaction_metadata (suc fuel) t = elim (direct_metadata t) [
    | thrown ↦ Run.finished thrown
    | done m ↦ elim (carried t m) [
      | thrown ↦ Run.finished (done (adjust_result t m))
      | done inner ↦ or_direct t m (get_normal_transaction_metadata fuel inner)
    ]
  ]
