-- ===== src/Transactions/Trim/Kept.antt =====
-- No transfer is lost when the operations are trimmed.
use Prim.Native.Nat.{◌<◌}
use api_elrond_com.Common.{
  ℕ, zero, suc, ◌≡◌, ◌↔◌, refl, sym, ◌∙◌, String, Bool, true, false, ◌&&◌, some, List, filter, any,
  option_eq, string_eq, ◌==◌, eq_iff, option_text_iff, Bool-cases, inl, inr, Memᴰ, any-Memᴰ,
  Memᴰ-filter, arith,
}
use api_elrond_com.Transactions.{
  TransactionOperationAction, TransactionOperationType, operation_action_eq, operation_type_eq,
  TransactionOperation,
}
use api_elrond_com.Transactions.Trim.{
  PreviousHashes, is_transfer, is_identical, is_shown, trim_operations,
}

-- The two operations tell of the same thing, whatever hash they stand under.
pub record IsSame (op k : TransactionOperation) : Type 0 where
  pub action : k.action ≡ op.action
  pub type : k.type ≡ op.type
  pub sender : k.sender ≡ op.sender
  pub receiver : k.receiver ≡ op.receiver
  pub collection : k.collection ≡ op.collection
  pub identifier : k.identifier ≡ op.identifier
  pub value : k.value ≡ op.value

IsSame-trans : (a b c : TransactionOperation) → IsSame a b → IsSame b c → IsSame a c
IsSame-trans a b c p q = record {
  action = q.action ∙ p.action;
  type = q.type ∙ p.type;
  sender = q.sender ∙ p.sender;
  receiver = q.receiver ∙ p.receiver;
  collection = q.collection ∙ p.collection;
  identifier = q.identifier ∙ p.identifier;
  value = q.value ∙ p.value;
}

action_iff : (x y : TransactionOperationAction) → ((x == y) ≡ true) ↔ (x ≡ y)
action_iff x y = operation_action_eq.is_same_iff x y

type_iff : (x y : TransactionOperationType) → ((x == y) ≡ true) ↔ (x ≡ y)
type_iff x y = operation_type_eq.is_same_iff x y

and_true : (a b : Bool) → (a && b) ≡ true → (a ≡ true) × (b ≡ true)
and_true true b h = (refl, h)
and_true false b h = cc

identical-IsSame :
    (previous : PreviousHashes) (op x : TransactionOperation)
    → is_transfer op ≡ true
    → is_identical previous op x ≡ true
    → IsSame op x × (previous op.id ≡ some x.id)
unfolding is_identical
identical-IsSame previous op x t h0 =
    let (sender, h1) = and_true _ _ h0 in
    let (receiver, h2) = and_true _ _ h1 in
    let (collection, h3) = and_true _ _ h2 in
    let (identifier, h4) = and_true _ _ h3 in
    let (type, h5) = and_true _ _ h4 in
    let (value, h6) = and_true _ _ h5 in
    let (transfer, cause) = and_true _ _ h6 in
    (
      record {
        action = (action_iff _ _).0 transfer ∙ sym ((action_iff _ _).0 t);
        type = (type_iff _ _).0 type;
        sender = (eq_iff _ _).0 sender;
        receiver = (eq_iff _ _).0 receiver;
        collection = (option_text_iff _ _).0 collection;
        identifier = (eq_iff _ _).0 identifier;
        value = (option_text_iff _ _).0 value;
      },
      sym ((option_text_iff _ _).0 cause),
    )

IsSame-refl : (op : TransactionOperation) → IsSame op op
IsSame-refl op = record {
  action = refl;
  type = refl;
  sender = refl;
  receiver = refl;
  collection = refl;
  identifier = refl;
  value = refl;
}

module _ (previous : PreviousHashes) (rank : String → ℕ)
    (descends : (hash cause : String) → previous hash ≡ some cause → rank cause < rank hash)
    (operations : List TransactionOperation) where
  -- The same operation among those that are shown.
  record Shown (op : TransactionOperation) : Type 0 where
    kept : TransactionOperation
    shown : Memᴰ kept (filter (is_shown previous operations) operations)
    same : IsSame op kept

  kept-Shown :
      (op : TransactionOperation)
      → Memᴰ op operations
      → is_shown previous operations op ≡ true
      → Shown op
  kept-Shown op among h = record {
    kept = op;
    shown = Memᴰ-filter (is_shown previous operations) op operations among h;
    same = IsSame-refl op;
  }

  find-Shown : (n : ℕ) (op : TransactionOperation) → rank op.id < n → Memᴰ op operations → Shown op
  unfolding is_shown
  find-Shown zero op bound among = absurd (omega arith)
  find-Shown (suc n) op bound among = elim (Bool-cases (is_transfer op)) [
    | inr other ↦ kept-Shown op among (rw (other, is_shown) refl)
    | inl t ↦ elim (Bool-cases (any (is_identical previous op) operations)) [
      | inr alone ↦ kept-Shown op among (rw (t, alone, is_shown) refl)
      | inl repeated ↦
          let (x, x_among, identical) = any-Memᴰ (is_identical previous op) operations repeated in
          let (same, cause) = identical-IsSame previous op x t identical in
          let s = find-Shown n x (omega (arith, bound, descends op.id x.id cause)) x_among in
          record { kept = s.kept; shown = s.shown; same = IsSame-trans op x s.kept same s.same }
    ]
  ]

  -- Where the causes of hashes do not go round in a circle and `sorted` keeps every element, every
  -- operation is told of by one that is shown: the same but for the hash that it stands under.
  pub trim_operations_kept :
      (sorted : (TransactionOperation → Bool)
        → List TransactionOperation
        → List TransactionOperation)
      → ((f : TransactionOperation → Bool) (op : TransactionOperation)
            (xs : List TransactionOperation)
          → Memᴰ op xs
          → Memᴰ op (sorted f xs))
      → (sender : String) (op : TransactionOperation) → Memᴰ op operations
      → (kept : TransactionOperation) × Memᴰ kept
          (trim_operations sorted sender operations previous)
        × IsSame op kept
  unfolding trim_operations
  trim_operations_kept sorted keeps sender op among =
      let s = find-Shown (suc (rank op.id)) op (omega arith) among in
      (s.kept, keeps _ s.kept _ s.shown, s.same)
