-- ===== src/Actions.antt =====
-- What a transaction does, in words: the entities of
-- src/endpoints/transactions/transaction-action/entities, and the packages that the services call.
pub mod Throws
pub mod Metadata
pub mod Transfers
pub mod EsdtNft
pub mod Mex
pub mod Stake
pub mod Calls
pub mod Recognize
mod Tests
use api_elrond_com.Common.{ℕ, String, Bool, Option, none, List, []}
use api_elrond_com.Transactions.Properties.{TokenTransferProperties}
use api_elrond_com.Actions.Throws.{Outcome}

pub record TransactionMetadataTransfer : Type 0 where
  pub properties : Option TokenTransferProperties
  pub value : ℕ

-- An amount is not negative.
pub record TransactionMetadata : Type 0 where
  pub sender : String
  pub receiver : String
  pub value : ℕ
  pub function_name : Option String
  pub function_args : List String
  pub transfers : Option (List TransactionMetadataTransfer)

-- `new TransactionMetadata()`
abbrev pub new_metadata : TransactionMetadata
new_metadata = record {
  sender = "";
  receiver = "";
  value = 0;
  function_name = none;
  function_args = [];
  transfers = none;
}

pub data TransactionActionCategory : Type 0 where
  esdt_nft mex stake sc_call sc_deploy : TransactionActionCategory

-- A week of `MetabondingWeek`; `none` is `NaN`.
pub record MetabondingWeek : Type 0 where
  pub week : Option ℕ
  pub egld_staked : ℕ
  pub lkmex_staked : ℕ

-- `arguments`, one constructor for each shape that the services give.
pub data ActionArguments : Type 0 where
  no_arguments : ActionArguments
  transferred :
      List (TokenTransferProperties × ℕ)
      → String
      → Option String
      → Option (List String)
      → ActionArguments
  frozen : String → TokenTransferProperties → ActionArguments
  provider : Option ℕ → String → String → ActionArguments
  weeks : List MetabondingWeek → Option String → List String → ActionArguments
  wrapped : String → String → ℕ → String → ActionArguments

pub record TransactionAction : Type 0 where
  pub category : TransactionActionCategory
  pub name : String
  pub description : String
  pub arguments : ActionArguments

-- Of a transaction, what the metadata is made from.
pub record Transaction : Type 0 where
  pub sender : String
  pub receiver : String
  pub value : String
  pub text : Option String
  pub is_smart_contract_result : Bool

-- The package `@multiversx/sdk-nestjs`, `BigInt` and `JSON.parse`: an argument that is missing is `none`,
-- and what throws gives `thrown`. A number of `hex_to_number` that is `none` is `NaN`.
pub record Package : Type 0 where
  pub base64_encode : String → String
  pub base64_decode : String → String
  pub base64_to_hex : String → Outcome String
  pub hex_to_string : Option String → Outcome String
  pub hex_to_number : Option String → Outcome (Option ℕ)
  pub hex_to_big_int : Option String → Outcome ℕ
  pub big_int : String → Outcome ℕ
  pub parse_transaction : String → Outcome Transaction
  pub bech32_encode : Option String → Outcome String
  pub bech32_decode : String → Outcome String
  pub is_hex : String → Bool
  pub is_function_name : String → Bool
  pub is_address_valid : Option String → Bool
  pub is_smart_contract_address : String → Bool
  pub to_denominated_string : ℕ → Option ℕ → String
  pub to_text : ℕ → String
  pub split_array_into_chunks : List String → ℕ → List (List String)
