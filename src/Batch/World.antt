-- ===== src/Batch/World.antt =====
-- What the batch services act on: the remote cache (src/utils/cache.info.ts names its keys), the
-- gateway, the published events. The libraries behind them are parameters.
pub mod Ends
pub mod Laws
use api_elrond_com.Common.{
  ℕ, ◌≡◌, String, Option, none, some, List, [], ◌∷◌, ◌++◌, ◌==◌, string_eq, if◌then◌else◌, ◌+text◌,
}
use api_elrond_com.Batch.{TransactionDetails, TransactionBatch}

-- The operations of `CachingService` on the remote cache that the services call.
pub record Cache (S V : Type 0) : Type 0 where
  pub get : String → S → Option V
  pub set : String → V → S → S
  pub delete : String → S → S
  -- The keys that begin with a text: `getKeys` of that text and `*`.
  pub keys : String → S → List String

-- What a store of keys and values is documented to do, as long as nothing expires.
pub record IsCache {S V : Type 0} (c : Cache S V) : Type 0 where
  pub get-set :
      (j k : String) (v : V) (s : S)
      → c.get j (c.set k v s) ≡ (if k == j then some v else c.get j s)
  pub get-delete :
      (j k : String) (s : S) → c.get j (c.delete k s) ≡ (if k == j then none else c.get j s)

-- What is known of a caught error: `error.response.data.message`, with `none` where reading it
-- throws in its turn.
pub record Failure : Type 0 where
  pub message : Option (Option String)

pub data Outcome (A : Type 0) : Type 0 where
  ok : A → Outcome A
  thrown : Failure → Outcome A

pub record TransactionSendResult : Type 0 where
  pub receiver : String
  pub receiver_shard : ℕ
  pub sender : String
  pub sender_shard : ℕ
  pub tx_hash : Option String

-- `TransactionSendResult | string`
pub data SendResult : Type 0 where
  sent : TransactionSendResult → SendResult
  text : String → SendResult

-- The gateway accepts, with a hash in its answer or without, or it refuses with a text.
pub data GatewayReply : Type 0 where
  accepted : Option String → GatewayReply
  refused : String → GatewayReply

-- A plugin may answer in place of the gateway.
pub data PluginReply : Type 0 where
  quiet : PluginReply
  answers : SendResult → PluginReply
  throws : Failure → PluginReply

pub data Event : Type 0 where
  batch_updated : (address : String) (batch_id : String) (tx_hashes : List (Option String)) → Event

-- The remote cache is kept in two parts: the batches, and the pending transactions.
pub record World (B P : Type 0) : Type 0 where
  pub batches : B
  pub pending : P
  -- What was sent to the gateway, first things first.
  pub submitted : List TransactionDetails
  pub events : List Event
  pub now : ℕ

-- The keys of the two parts begin with different words, so one remote cache holds both; what is said of
-- the one part says nothing of the other.
pub record Env (B P : Type 0) : Type 0 where
  pub batches : Cache B TransactionBatch
  pub pending : Cache P String
  -- `AddressUtils.computeShard(AddressUtils.bech32Decode(address))`, `none` where it throws.
  pub shard_of : String → Option ℕ
  pub plugin : TransactionDetails → PluginReply
  -- The gateway's answer, given what it was sent before.
  pub gateway : List TransactionDetails → TransactionDetails → GatewayReply
  -- The hash that the SDK computes, `none` where building the SDK's transaction throws.
  pub compute_hash : TransactionDetails → Option String
  -- `new Date().toISOString()`, and the time of a text, `none` where it is no date.
  pub iso : ℕ → String
  pub parse : String → Option ℕ

-- `CacheInfo.TransactionBatch` and `CacheInfo.PendingTransaction`.
abbrev pub transaction_batch_key : String → String → String
transaction_batch_key sender batch_id = "transactionbatch:" +text sender +text ":" +text batch_id

abbrev pub pending_transaction_key : String → String
pending_transaction_key hash = "pendingtransaction:" +text hash

-- A computation changes the world, and returns a value or throws.
abbrev pub M : Type 0 → Type 0 → Type 0 → Type 0
M B P A = World B P → Outcome A × World B P

module _ {B P : Type 0} where
  abbrev pub pure : {A : Type 0} → A → M B P A
  pure a w = (ok a, w)

  abbrev pub throw : {A : Type 0} → Failure → M B P A
  throw f w = (thrown f, w)

  infixl 5 ◌>>=◌ ◌>>◌
  abbrev pub ◌>>=◌ : {A C : Type 0} → M B P A → (A → M B P C) → M B P C
  ◌>>=◌ m k w = let r = m w in elim (r.0) [ ok a ↦ k a (r.1) | thrown f ↦ (thrown f, r.1) ]

  abbrev pub ◌>>◌ : {C : Type 0} → M B P (Unit {0}) → M B P C → M B P C
  m >> k = m >>= λ _. k

  -- A TypeError: it has no `response` to read a message from.
  abbrev pub type_error : {A : Type 0} → M B P A
  type_error = throw (record { message = none })

  abbrev pub of_option : {A : Type 0} → Option A → M B P A
  of_option none = type_error
  of_option (some a) = pure a

  abbrev pub emit : Event → M B P (Unit {0})
  emit e w = (ok tt, record w { events = w.events ++ e ∷ [] })
