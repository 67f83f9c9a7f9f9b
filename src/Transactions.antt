-- ===== src/Transactions.antt =====
-- The operations, logs and results of a transaction: the entities of src/endpoints/transactions/entities
-- and src/endpoints/sc-results/entities that the lookup of a transaction works on.
pub mod Trim
pub mod Properties
pub mod Operations
pub mod Logs
pub mod Lookup
pub mod Gateway
mod Tests
use api_elrond_com.Common.{
  ℕ, String, Bool, true, false, Option, none, some, List, [], ◌∷◌, Eq, eq_of_discrete,
}

pub data TransactionOperationAction : Type 0 where
  none_action transfer transfer_value_only burn add_quantity create : TransactionOperationAction
  local_mint local_burn wipe freeze write_log signal_error : TransactionOperationAction

pub data TransactionOperationType : Type 0 where
  none_type nft esdt log error egld : TransactionOperationType

pub TransactionOperationAction-discrete : Discrete TransactionOperationAction
TransactionOperationAction-discrete = hlevel

pub TransactionOperationType-discrete : Discrete TransactionOperationType
TransactionOperationType-discrete = hlevel

instance abbrev pub operation_action_eq : Eq TransactionOperationAction
operation_action_eq = eq_of_discrete TransactionOperationAction-discrete

instance abbrev pub operation_type_eq : Eq TransactionOperationType
operation_type_eq = eq_of_discrete TransactionOperationType-discrete

-- The assets of the two addresses and the value in dollars, which other services fill in, are left out.
pub record TransactionOperation : Type 0 where
  pub id : String
  pub action : TransactionOperationAction
  pub type : TransactionOperationType
  pub esdt_type : Option String
  pub identifier : String
  pub ticker : Option String
  pub collection : Option String
  pub name : Option String
  pub value : Option String
  pub sender : String
  pub receiver : String
  pub decimals : Option ℕ
  pub text : Option String
  pub message : Option String
  pub svg_url : Option String

-- `new TransactionOperation()`
abbrev pub new_operation : TransactionOperation
new_operation = record {
  id = "";
  action = TransactionOperationAction.none_action;
  type = TransactionOperationType.none_type;
  esdt_type = none;
  identifier = "";
  ticker = some "";
  collection = none;
  name = none;
  value = none;
  sender = "";
  receiver = "";
  decimals = none;
  text = none;
  message = none;
  svg_url = none;
}

pub record TransactionLogEvent : Type 0 where
  pub identifier : String
  pub address : String
  pub text : Option String
  pub topics : List String

pub record TransactionLog : Type 0 where
  pub id : Option String
  pub address : String
  pub events : List TransactionLogEvent

-- Of a result, what the lookup reads and writes.
pub record SmartContractResult : Type 0 where
  pub hash : String
  pub nonce : ℕ
  pub value : Option String
  pub sender : String
  pub receiver : String
  pub prev_tx_hash : Option String
  pub logs : Option TransactionLog

pub record TransactionReceipt : Type 0 where
  pub value : String
  pub sender : String
  pub text : String

-- Of a transaction in detail, what the lookup reads and writes.
pub record TransactionDetailed : Type 0 where
  pub tx_hash : String
  pub sender : String
  pub results : Option (List SmartContractResult)
  pub receipt : Option TransactionReceipt
  pub logs : Option TransactionLog
  pub operations : List TransactionOperation
