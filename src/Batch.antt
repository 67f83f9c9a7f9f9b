-- ===== src/Batch.antt =====
-- The entities of src/endpoints/transactions.batch/entities: a batch is a list of groups that run
-- one after another, and a group is a list of transactions that run together.
pub mod Groups
pub mod World
pub mod Execute
pub mod Start
pub mod Process
pub mod Handle
mod Tests
use api_elrond_com.Common.{
  ℕ, zero, String, Bool, true, false, Option, none, some, List, [], get_elem?,
}

-- The enum's values, and any other text that a caller passes off as one.
pub data BatchTransactionStatus : Type 0 where
  pending invalid dropped success : BatchTransactionStatus
  other : String → BatchTransactionStatus

pub data TransactionBatchStatus : Type 0 where
  pending success invalid dropped : TransactionBatchStatus

-- `data` is a reserved word: the field is called `payload`.
pub record TransactionDetails : Type 0 where
  pub chain_id : String
  pub payload : Option String
  pub gas_limit : ℕ
  pub gas_price : ℕ
  pub nonce : ℕ
  pub receiver : String
  pub sender : String
  pub signature : String
  pub value : String
  pub version : ℕ
  pub options : Option ℕ

-- The hash is `undefined` where the answer to a submission has none.
pub record Transaction : Type 0 where
  pub tx : TransactionDetails
  pub hash : Option String
  pub payload : String

pub record TransactionBatchItem : Type 0 where
  pub transaction : Transaction
  pub status : BatchTransactionStatus
  pub error : Option String

pub record TransactionBatchGroup : Type 0 where
  pub items : List TransactionBatchItem

pub record TransactionBatch : Type 0 where
  pub id : String
  pub groups : List TransactionBatchGroup
  pub status : TransactionBatchStatus
  pub source_ip : Option String

abbrev pub is_pending : BatchTransactionStatus → Bool
is_pending BatchTransactionStatus.pending = true
is_pending _ = false

abbrev pub is_invalid : BatchTransactionStatus → Bool
is_invalid BatchTransactionStatus.invalid = true
is_invalid _ = false

abbrev pub is_success : BatchTransactionStatus → Bool
is_success BatchTransactionStatus.success = true
is_success _ = false

-- The items of `groups[i]`, none where there is no such group.
abbrev pub items_at : List TransactionBatchGroup → ℕ → List TransactionBatchItem
items_at groups i = elim (get_elem? groups i) [ none ↦ [] | some g ↦ g.items ]

-- `TransactionBatch.getAddress`: `none` is the TypeError of a missing group or item.
unfoldable pub get_address : TransactionBatch → Option String
get_address batch = elim (get_elem? (items_at batch.groups zero) zero) [
  | none ↦ none
  | some item ↦ some item.transaction.tx.sender
]
