-- ===== src/Transactions/Trim.antt =====
-- The operations that are shown: `trimOperations` of src/endpoints/transactions/transaction.utils.ts.
pub mod Kept
use api_elrond_com.Common.{
  String, Bool, true, false, not, ◌&&◌, Option, none, some, List, [], ◌∷◌, filter, any, option_eq,
  string_eq, ◌==◌, if◌then◌else◌,
}
use api_elrond_com.Transactions.{
  TransactionOperationAction, operation_action_eq, operation_type_eq, TransactionOperation,
}

-- `previousHashes`: what a hash was caused by.
abbrev pub PreviousHashes : Type 0
PreviousHashes = String → Option String

abbrev pub is_transfer : TransactionOperation → Bool
is_transfer op = op.action == TransactionOperationAction.transfer

-- `x` is the same transfer as `op`, in what caused `op`.
unfoldable pub is_identical : PreviousHashes → TransactionOperation → TransactionOperation → Bool
is_identical previous op x =
    (x.sender == op.sender)
    && ((x.receiver == op.receiver)
        && ((x.collection == op.collection)
            && ((x.identifier == op.identifier)
                && ((x.type == op.type)
                    && ((x.value == op.value)
                        && (is_transfer x && (some x.id == previous op.id)))))))

unfoldable pub is_shown : PreviousHashes → List TransactionOperation → TransactionOperation → Bool
unfolding is_identical
is_shown previous operations op =
    if is_transfer op then not (any (is_identical previous op) operations) else true

-- `sorted` of the package `@multiversx/sdk-nestjs`, by whether the sender is the transaction's.
module _
    (sorted : (TransactionOperation → Bool)
      → List TransactionOperation
      → List TransactionOperation) where
  unfoldable pub trim_operations :
      String → List TransactionOperation → PreviousHashes → List TransactionOperation
  unfolding is_shown
  trim_operations sender operations previous =
      sorted (λ op. op.sender == sender) (filter (is_shown previous operations) operations)
