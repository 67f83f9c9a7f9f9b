-- ===== src/Actions/Transfers/RoundTrip.antt =====
-- What a call that transfers several tokens is written as, it is read back from.
use Prim.Native.Nat.{◌≤◌}
use api_elrond_com.Common.{
  ℕ, suc, ◌≡◌, refl, String, true, false, Option, none, some, List, [], ◌∷◌, ◌++◌, length, All,
  text_length, ltb, option_eq, string_eq, ◌==◌, eq_iff, ap, ◌∙◌, if◌then◌else◌, Bool-cases, inl,
  inr, arith,
}
use api_elrond_com.Transactions.Properties.{TokenTransferProperties}
use api_elrond_com.Actions.{TransactionMetadataTransfer, TransactionMetadata, new_metadata, Package}
use api_elrond_com.Actions.Throws.{done}
use api_elrond_com.Actions.Transfers.{
  push_transfer, item_nonce, with_call_at, parse_value_from_multi_transfer_value_arg,
  read_transfers, get_multi_transfer_metadata,
}

-- A transfer that is sent: the token, the digits of the nonce (or none) and the amount.
pub record Sent : Type 0 where
  pub identifier : String
  pub nonce : String
  pub amount : ℕ

pub record Call : Type 0 where
  pub name : String
  pub args : List String

module _ (p : Package) (properties_of : String → Option String → Option TokenTransferProperties)
    (hex : String → String) (digits : ℕ → String) where
  abbrev pub encode_transfers : List Sent → List String
  encode_transfers [] = []
  encode_transfers (s ∷ sent) = hex s.identifier ∷ s.nonce ∷ digits s.amount ∷ encode_transfers sent

  abbrev pub encode_call : Option Call → List String
  encode_call none = []
  encode_call (some c) = hex c.name ∷ c.args

  -- The properties of what is sent: of an item of a collection where there is a nonce, else of a token.
  abbrev pub properties_sent : Sent → Option TokenTransferProperties
  properties_sent s = properties_of s.identifier (if s.nonce == "" then none else some s.nonce)

  -- The amounts and properties, in order, of what has properties.
  abbrev pub known_transfers : List Sent → List TransactionMetadataTransfer
  known_transfers [] = []
  known_transfers (s ∷ sent) = elim (properties_sent s) [
    | none ↦ known_transfers sent
    | some known ↦ record { properties = some known; value = s.amount } ∷ known_transfers sent
  ]

  abbrev pub called : Option Call → TransactionMetadata → TransactionMetadata
  called none m = m
  called (some c) m = record m { function_name = some c.name; function_args = c.args }

  module _ (text : (s : String) → p.hex_to_string (some (hex s)) ≡ done s)
      (number : (n : ℕ) → p.hex_to_number (some (digits n)) ≡ done (some n))
      (amount : (n : ℕ) → p.hex_to_big_int (some (digits n)) ≡ done n) where
    parse_value-digits :
        (n : ℕ)
        → text_length (digits n) ≤ 64
        → parse_value_from_multi_transfer_value_arg p properties_of (some (digits n)) ≡ done n
    unfolding parse_value_from_multi_transfer_value_arg
    parse_value-digits n short =
        let is_short : ltb 64 (text_length (digits n)) ≡ false = ground arith in
        rw (is_short, amount n) refl

    nonce_asked :
        (s : Sent)
        → item_nonce p properties_of (some s.nonce) ≡ (if s.nonce == "" then none else some s.nonce)
    nonce_asked s = elim (Bool-cases (s.nonce == "")) [
      | inl empty ↦ rw empty refl
      | inr given ↦ rw given refl
    ]

    push_transfer_lem :
        (value : ℕ) (o : Option TokenTransferProperties) (ts : List TransactionMetadataTransfer)
        → push_transfer p properties_of value o ts ≡ elim o [
          | none ↦ ts
          | some known ↦ record { properties = some known; value = value } ∷ ts
        ]
    push_transfer_lem value none ts = refl
    push_transfer_lem value (some known) ts = refl

    push_transfer-known :
        (s : Sent) (sent : List Sent)
        → push_transfer p properties_of s.amount
            (properties_of s.identifier (item_nonce p properties_of (some s.nonce)))
            (known_transfers sent)
          ≡ known_transfers (s ∷ sent)
    push_transfer-known s sent =
        ap
          (λ nonce.
            push_transfer p properties_of s.amount (properties_of s.identifier nonce)
              (known_transfers sent))
          (nonce_asked s)
        ∙ push_transfer_lem s.amount (properties_sent s) (known_transfers sent)

    read_transfers-encode :
        (sent : List Sent) (rest : List String)
        → All (λ (s : Sent). text_length (digits s.amount) ≤ 64) sent
        → read_transfers p properties_of (length sent) (encode_transfers sent ++ rest)
          ≡ done (known_transfers sent, rest)
    unfolding read_transfers
    read_transfers-encode [] rest short = refl
    read_transfers-encode (s ∷ sent) rest (here, short) =
        rw
          (
            text s.identifier,
            parse_value-digits s.amount here,
            read_transfers-encode sent rest short,
          )
          (ap (λ transfers. done (transfers, rest)) (push_transfer-known s sent))

    with_call_at-encode :
        (call : Option Call) (m : TransactionMetadata)
        → with_call_at p properties_of 0 (encode_call call) m ≡ done (called call m)
    with_call_at-encode none m = refl
    with_call_at-encode (some c) m =
        let some_left : ltb 0 (suc (length c.args)) ≡ true = ground arith in
        rw (some_left, text c.name) refl

    -- A call that sends at least one transfer, of amounts of up to 64 digits, to an address that is
    -- valid, is read as just those transfers of the tokens that have properties, with that receiver and
    -- the call that was made beside them. It is supposed that the package decodes what was encoded.
    pub get_multi_transfer_metadata-encode :
        (m : TransactionMetadata) (address receiver : String) (s : Sent) (sent : List Sent)
        (call : Option Call)
        → m.sender ≡ m.receiver
        → m.function_name ≡ some "MultiESDTNFTTransfer"
        → m.function_args
          ≡ address ∷ digits (length (s ∷ sent)) ∷ encode_transfers (s ∷ sent) ++ encode_call call
        → p.is_address_valid (some address) ≡ true
        → p.bech32_encode (some address) ≡ done receiver
        → All (λ (x : Sent). text_length (digits x.amount) ≤ 64) (s ∷ sent)
        → get_multi_transfer_metadata p properties_of m
          ≡ done (
              some (
                called call (record new_metadata {
                  sender = m.sender;
                  receiver = receiver;
                  transfers = some (known_transfers (s ∷ sent));
                })))
    unfolding get_multi_transfer_metadata
    get_multi_transfer_metadata-encode m address receiver s sent call self name args valid reads
          short =
        let same : (m.sender == m.receiver) ≡ true = (eq_iff _ _).1 self in
        let long : ltb
              (suc (suc (suc (suc (suc (length (encode_transfers sent ++ encode_call call))))))) 3
            ≡ false =
          ground arith in
        rw (same, name, args)
          (rw
            (
              long,
              valid,
              reads,
              number (length (s ∷ sent)),
              read_transfers-encode (s ∷ sent) (encode_call call) short,
              with_call_at-encode call _,
            )
            refl)
