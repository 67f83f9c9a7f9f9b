-- ===== src/Actions/Tests.antt =====
-- The properties of the actions' modules, each at an input of its own.
use Prim.Native.Nat.{◌≤◌}
use api_elrond_com.Common.{
  ℕ, zero, suc, ◌≡◌, refl, ap, subst, String, Option, none, some, true, false, List, [], ◌∷◌, ◌++◌,
  length, map, ◌+text◌, text_length, text_length-append, split, option_eq, string_eq, ◌==◌,
  if◌then◌else◌, arith,
}
use api_elrond_com.Transactions.Properties.{TokenTransferProperties}
use api_elrond_com.Actions.{
  TransactionMetadata, new_metadata, TransactionActionCategory, ActionArguments, Transaction,
  Package,
}
use api_elrond_com.Actions.Throws.{Outcome, done, thrown}
use api_elrond_com.Actions.Metadata.{Run, get_normal_transaction_metadata}
use api_elrond_com.Actions.Metadata.Relayed.{
  option_length, get_normal_transaction_metadata-finished,
}
use api_elrond_com.Actions.Transfers.{get_multi_transfer_metadata}
use api_elrond_com.Actions.Transfers.RoundTrip.{
  Sent, Call, encode_transfers, encode_call, known_transfers, called,
  get_multi_transfer_metadata-encode,
}
use api_elrond_com.Actions.EsdtNft.{transfer_details, shown_function, shown_args}
use api_elrond_com.Actions.Mex.{MexSettings}
use api_elrond_com.Actions.Recognize.{Context, get_recognizers, first_action}
use api_elrond_com.Actions.Recognize.Swaps.{
  SwapArguments, KnownSwap, asked_for, sent_transfer, swap_call,
}
use api_elrond_com.Actions.Recognize.Pushed.{first_action-pushed}

-- A package in which hexadecimal digits stand for themselves and a number for its count of ones.
abbrev or_thrown : Option String → Outcome String
or_thrown none = thrown
or_thrown (some s) = done s

abbrev count_of : Option String → Outcome ℕ
count_of none = thrown
count_of (some s) = done (text_length s)

abbrev number_of : Option String → Outcome (Option ℕ)
number_of none = done none
number_of (some s) = done (some (text_length s))

abbrev sdk : Package
sdk = record {
  base64_encode = λ s. s;
  base64_decode = λ s. s;
  base64_to_hex = λ s. done s;
  hex_to_string = or_thrown;
  hex_to_number = number_of;
  hex_to_big_int = count_of;
  big_int = λ s. done 0;
  parse_transaction = λ s. thrown;
  bech32_encode = or_thrown;
  bech32_decode = λ s. done s;
  is_hex = λ s. true;
  is_function_name = λ s. true;
  is_address_valid = λ o. true;
  is_smart_contract_address = λ s. false;
  to_denominated_string = λ n d. "";
  to_text = λ n. "";
  split_array_into_chunks = λ xs n. xs ∷ [];
}

or_thrown-length :
    (o : Option String) (s : String) → or_thrown o ≡ done s → text_length s ≤ option_length o
or_thrown-length none s h = absurd cc
or_thrown-length (some a) s h =
    let same : a ≡ s = cc in subst (λ x. text_length x ≤ text_length a) same (omega arith)

-- A transaction that carries another.
abbrev relaying : Transaction
relaying = record {
  sender = "a";
  receiver = "b";
  value = "1";
  text = some "relayedTxV2@cccc@01@aabb@02";
  is_smart_contract_result = false;
}

get_normal_transaction_metadata-finished_example :
    (result : Outcome TransactionMetadata) × (get_normal_transaction_metadata sdk 28 relaying
      ≡ Run.finished result)
    × (get_normal_transaction_metadata sdk 40 relaying ≡ Run.finished result)
get_normal_transaction_metadata-finished_example =
    get_normal_transaction_metadata-finished sdk or_thrown-length (λ s. refl) (λ s t h. absurd cc)
      28 40 relaying (omega arith) (omega arith)

carried_example :
    get_normal_transaction_metadata sdk 3 relaying
    ≡ Run.finished (
        done (record new_metadata { sender = "b"; receiver = "cccc"; function_name = some "aabb" }))
unfolding get_normal_transaction_metadata split
carried_example = refl

abbrev ones : ℕ → String
ones zero = ""
ones (suc n) = "1" +text ones n

ones-length : (n : ℕ) → text_length (ones n) ≡ n
ones-length zero = refl
ones-length (suc n) = omega (arith, text_length-append "1" (ones n), ones-length n)

abbrev token : TokenTransferProperties
token = record {
  type = "FungibleESDT";
  token = some "WEGLD-1";
  collection = none;
  identifier = none;
  ticker = "WEGLD";
  decimals = some 18;
  name = "WrappedEGLD";
  svg_url = "";
}

abbrev properties_of : String → Option String → Option TokenTransferProperties
properties_of identifier n = if identifier == "WEGLD-1" then some token else none

abbrev two_sent : List Sent
two_sent =
    record { identifier = "WEGLD-1"; nonce = ""; amount = 3 }
    ∷ record { identifier = "MEX-2"; nonce = "05"; amount = 1 }
    ∷ []

abbrev a_call : Option Call
a_call = some (record { name = "enterFarm"; args = "07" ∷ [] })

abbrev multi : TransactionMetadata
multi = record new_metadata {
  sender = "erd1a";
  receiver = "erd1a";
  function_name = some "MultiESDTNFTTransfer";
  function_args =
      "erd1b" ∷ ones (length two_sent) ∷ encode_transfers sdk properties_of (λ s. s) ones two_sent
      ++ encode_call sdk properties_of (λ s. s) ones a_call;
}

get_multi_transfer_metadata-encode_example :
    get_multi_transfer_metadata sdk properties_of multi
    ≡ done (
        some (
          called sdk properties_of
            (λ s. s)
            ones
            a_call
            (record new_metadata {
              sender = "erd1a";
              receiver = "erd1b";
              transfers = some (known_transfers sdk properties_of (λ s. s) ones two_sent);
            })))
get_multi_transfer_metadata-encode_example =
    get_multi_transfer_metadata-encode sdk properties_of (λ s. s) ones (λ s. refl)
      (λ n. ap (λ k. done (some k)) (ones-length n)) (λ n. ap (λ k. done k) (ones-length n)) multi
      "erd1b" "erd1b" (record { identifier = "WEGLD-1"; nonce = ""; amount = 3 })
      (record { identifier = "MEX-2"; nonce = "05"; amount = 1 } ∷ []) a_call refl refl refl refl
      refl (omega arith, (omega arith, tt))

abbrev settings : MexSettings
settings = record {
  pair_contracts = [];
  farm_contracts = [];
  wrap_contracts = [];
  router_factory_contract = "router";
  distribution_contract = "distribution";
  locked_asset_contract = "locked";
  locked_asset_identifier = none;
  locked_asset_identifier_v2 = none;
  mex_id = "MEX-2";
  wegld_id = "WEGLD-1";
}

abbrev context : Context
context = record {
  package_of = sdk;
  properties_of = properties_of;
  exchange_service_url = some "https://exchange";
  esdt_contract_address = "esdt";
  metabonding_contract_address = none;
  mex_state = record { settings = some settings; cached_contracts = none };
  provider_details = λ address. none;
}

abbrev known_swap : KnownSwap
known_swap = record {
  arguments = record { address = "pair"; function = "swap"; token = "WEGLD-1"; value = "11" };
  identifier = "WEGLD-1";
  amount = 2;
  properties = token;
}

abbrev unknown_swap : SwapArguments
unknown_swap = record { address = "pair"; function = "swap"; token = "GONE-1"; value = "1" }

abbrev on_router : TransactionMetadata
on_router = record new_metadata { sender = "erd1a"; receiver = "router" }

first_action-pushed_example :
    first_action context
      (get_recognizers [] context)
      (swap_call on_router (known_swap ∷ []) unknown_swap [] token 5 [])
    ≡ done (
        some (record {
          category = TransactionActionCategory.esdt_nft;
          name = "transfer";
          description = "Transfer";
          arguments =
              ActionArguments.transferred
                (transfer_details (sent_transfer token 5 ∷ map asked_for (known_swap ∷ [])))
                "router"
                (shown_function sdk
                  (swap_call on_router (known_swap ∷ []) unknown_swap [] token 5 []))
                (shown_args sdk (swap_call on_router (known_swap ∷ []) unknown_swap [] token 5 []));
        }))
first_action-pushed_example =
    first_action-pushed context settings (known_swap ∷ []) unknown_swap [] on_router token 5 [] refl
      refl refl refl (record { token = refl; value = refl; properties = refl }, tt)
      (record { identifier = "GONE-1"; amount = 1; token = refl; value = refl; properties = refl })
