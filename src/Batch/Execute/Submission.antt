-- ===== src/Batch/Execute/Submission.antt =====
-- What one submission after the other does to the items and to what the gateway was sent, told case by
-- case without the functions that do it.
use api_elrond_com.Common.{
  ℕ, ◌≡◌, String, Option, none, some, refl, List, [], ◌∷◌, ◌++◌, Option-cases, inl, inr,
}
use api_elrond_com.Batch.{BatchTransactionStatus, TransactionDetails, TransactionBatchItem}
use api_elrond_com.Batch.World.{
  Failure, World, Env, TransactionSendResult, sent, text, GatewayReply, accepted, refused,
  PluginReply, quiet, answers, throws,
}
use api_elrond_com.Batch.Execute.{execute_transaction, create_transaction, send_to_gateway, settle}

-- The item with the hash of a sent transaction, or without one.
abbrev pub hashed : TransactionBatchItem → Option String → TransactionBatchItem
hashed item hash =
    let old = item.transaction in record item { transaction = record old { hash = hash } }

-- The item as invalid, with the error.
abbrev pub failed : TransactionBatchItem → Option String → TransactionBatchItem
failed item error = record item { status = BatchTransactionStatus.invalid; error = error }

module _ {B P : Type 0} (env : Env B P) where
  -- Both addresses of the transaction decode.
  abbrev pub IsAddressed : TransactionDetails → Type 0
  IsAddressed tx =
      ((shard : ℕ) × (env.shard_of tx.receiver ≡ some shard))
      × ((shard : ℕ) × (env.shard_of tx.sender ≡ some shard))

  -- After the transactions `before` were sent to the gateway, an item is submitted: what becomes of it,
  -- and all that was sent then.
  pub data IsExecuted (before : List TransactionDetails) (item : TransactionBatchItem)
      : TransactionBatchItem → List TransactionDetails → Type 0 where
    receiver_undecoded :
        env.shard_of item.transaction.tx.receiver ≡ none
        → IsExecuted before item (failed item item.error) before
    sender_undecoded :
        env.shard_of item.transaction.tx.sender ≡ none
        → IsExecuted before item (failed item item.error) before
    plugin_sent :
        (result : TransactionSendResult)
        → IsAddressed item.transaction.tx
        → env.plugin item.transaction.tx ≡ answers (sent result)
        → IsExecuted before item (hashed item result.tx_hash) before
    plugin_text :
        (message : String)
        → IsAddressed item.transaction.tx
        → env.plugin item.transaction.tx ≡ answers (text message)
        → IsExecuted before item (hashed item none) before
    plugin_threw :
        (failure : Failure) (error : Option String)
        → IsAddressed item.transaction.tx
        → env.plugin item.transaction.tx ≡ throws failure
        → failure.message ≡ some error
        → IsExecuted before item (failed item error) before
    plugin_threw_other :
        (failure : Failure)
        → IsAddressed item.transaction.tx
        → env.plugin item.transaction.tx ≡ throws failure
        → failure.message ≡ none
        → IsExecuted before item (failed item item.error) before
    was_accepted :
        (hash : Option String)
        → IsAddressed item.transaction.tx
        → env.plugin item.transaction.tx ≡ quiet
        → env.gateway before item.transaction.tx ≡ accepted hash
        → IsExecuted before item (hashed item hash) (before ++ item.transaction.tx ∷ [])
    was_refused :
        (message : String)
        → IsAddressed item.transaction.tx
        → env.plugin item.transaction.tx ≡ quiet
        → env.gateway before item.transaction.tx ≡ refused message
        → IsExecuted before item (hashed item none) (before ++ item.transaction.tx ∷ [])

  -- One item after the other.
  pub data AreExecuted
      : List TransactionDetails
        → List TransactionBatchItem
        → List TransactionBatchItem
        → List TransactionDetails
        → Type 0 where
    nothing : {before : List TransactionDetails} → AreExecuted before [] [] before
    one_more :
        {before between after : List TransactionDetails} {item result : TransactionBatchItem}
        {items results : List TransactionBatchItem}
        → IsExecuted before item result between
        → AreExecuted between items results after
        → AreExecuted before (item ∷ items) (result ∷ results) after

  module _ (item : TransactionBatchItem) (w : World B P)
      (decoded : IsAddressed item.transaction.tx) where
    abbrev Executed : Type 0
    Executed =
        IsExecuted w.submitted item ((execute_transaction env item w).0)
          (((execute_transaction env item w).1).submitted)

    by_gateway :
        (reply : GatewayReply)
        → env.plugin item.transaction.tx ≡ quiet
        → env.gateway w.submitted item.transaction.tx ≡ reply
        → Executed
    unfolding execute_transaction create_transaction send_to_gateway settle
    by_gateway (accepted hash) silent e =
        rw (decoded.0.1, decoded.1.1, silent, send_to_gateway, e)
          (was_accepted hash decoded silent e)
    by_gateway (refused message) silent e =
        rw (decoded.0.1, decoded.1.1, silent, send_to_gateway, e)
          (was_refused message decoded silent e)

    by_plugin : (reply : PluginReply) → env.plugin item.transaction.tx ≡ reply → Executed
    unfolding execute_transaction create_transaction settle
    by_plugin quiet e = by_gateway (env.gateway w.submitted item.transaction.tx) e refl
    by_plugin (answers (sent result)) e =
        rw (decoded.0.1, decoded.1.1, e) (plugin_sent result decoded e)
    by_plugin (answers (text message)) e =
        rw (decoded.0.1, decoded.1.1, e) (plugin_text message decoded e)
    by_plugin (throws failure) e = elim (Option-cases failure.message) [
      | inl unread ↦
          rw (decoded.0.1, decoded.1.1, e, unread) (plugin_threw_other failure decoded e unread)
      | inr (error, read) ↦
          rw (decoded.0.1, decoded.1.1, e, read) (plugin_threw failure error decoded e read)
    ]

  pub execute_transaction-IsExecuted :
      (item : TransactionBatchItem) (w : World B P)
      → IsExecuted w.submitted item
          ((execute_transaction env item w).0)
          (((execute_transaction env item w).1).submitted)
  unfolding execute_transaction create_transaction settle
  execute_transaction-IsExecuted item w =
      let tx = item.transaction.tx in
      elim (Option-cases (env.shard_of tx.receiver)) [
        | inl bad ↦ rw bad (receiver_undecoded bad)
        | inr (r, hr) ↦ elim (Option-cases (env.shard_of tx.sender)) [
          | inl bad ↦ rw (hr, bad) (sender_undecoded bad)
          | inr (s, hs) ↦ by_plugin item w ((r, hr), (s, hs)) (env.plugin tx) refl
        ]
      ]
