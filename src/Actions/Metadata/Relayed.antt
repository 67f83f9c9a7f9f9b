-- ===== src/Actions/Metadata/Relayed.antt =====
-- The recursion into the transactions that are carried ends.
use Prim.Native.Nat.{◌≤◌, ◌<◌}
use api_elrond_com.Common.{
  ℕ, zero, suc, ◌+◌, ◌≡◌, refl, sym, ◌∙◌, ap, subst, String, Bool, true, false, ◌&&◌, Option, none,
  some, List, [], ◌∷◌, get_elem?, all, split, split-length, text_length, text_total, option_eq,
  string_eq, ◌==◌, option_text_iff, Bool-cases, inl, inr, ◌⊎◌, if◌then◌else◌, arith,
}
use api_elrond_com.Actions.{TransactionMetadata, Transaction, Package}
use api_elrond_com.Actions.Throws.{Outcome, done, thrown, ◌>>=◌}
use api_elrond_com.Actions.Metadata.{
  Run, is_smart_contract_argument, with_call, with_text, direct_metadata, relayed_transaction,
  relayed_transaction_v2, is_relayed, is_relayed_v2, adjust_result, carried, or_direct,
  get_normal_transaction_metadata,
}

abbrev pub option_length : Option String → ℕ
option_length none = 0
option_length (some s) = text_length s

-- The length of the text that a transaction carries, and of a call without its separators.
abbrev pub decoded_length : (String → String) → Option String → ℕ
decoded_length decode none = 0
decoded_length decode (some text) = text_length (decode text)

abbrev call_length : TransactionMetadata → ℕ
call_length m = elim (m.function_name) [
  | none ↦ 0
  | some name ↦ text_length name + text_total m.function_args
]

get_elem?-length : (i : ℕ) (args : List String) → option_length (get_elem? args i) ≤ text_total args
get_elem?-length i [] = omega arith
get_elem?-length zero (a ∷ args) = omega arith
get_elem?-length (suc i) (a ∷ args) = omega (arith, get_elem?-length i args)

with_value {ℓ κ ι} :
    {A : Type ℓ} {B : Type κ} {C : Type ι} (m : Outcome A) (f : A → Outcome B) {b : B}
    → (m >>= f) ≡ done b
    → ((a : A) → m ≡ done a → f a ≡ done b → C)
    → C
with_value (done a) f h k = k a refl h
with_value thrown f h k = absurd cc

done-injective {ℓ} : {A : Type ℓ} {a b : A} → done a ≡ done b → a ≡ b
done-injective e = cc

and_left : (a b : Bool) → (a && b) ≡ true → a ≡ true
and_left true b h = refl
and_left false b h = h

if_true {ℓ} : {A : Type ℓ} (b : Bool) (x y : A) → b ≡ true → (if b then x else y) ≡ x
if_true b x y e = rw e refl

if_false {ℓ} : {A : Type ℓ} (b : Bool) (x y : A) → b ≡ false → (if b then x else y) ≡ y
if_false b x y e = rw e refl

Outcome-cases {ℓ} : {A : Type ℓ} (o : Outcome A) → (o ≡ thrown) ⊎ ((a : A) × (o ≡ done a))
Outcome-cases thrown = inl refl
Outcome-cases (done a) = inr (a, refl)

module _ (p : Package)
    (hex : (o : Option String) (s : String)
      → p.hex_to_string o ≡ done s
      → text_length s ≤ option_length o)
    (codec : (s : String) → p.base64_decode (p.base64_encode s) ≡ s)
    (json : (s : String) (t : Transaction)
      → p.parse_transaction s ≡ done t
      → decoded_length p.base64_decode t.text ≤ text_length s) where
  with_call-length :
      (parts : List String) (m : TransactionMetadata)
      → m.function_name ≡ none
      → call_length (with_call p parts m) ≤ text_total parts
  with_call-length [] m e = rw e (omega arith)
  with_call-length (name ∷ args) m e = elim (Bool-cases (all (is_smart_contract_argument p) args)) [
    | inl h ↦ rw h (omega arith)
    | inr h ↦ rw (h, e) (omega arith)
  ]

  with_text-length :
      (text : Option String) (m : TransactionMetadata)
      → m.function_name ≡ none
      → call_length (with_text p text m) ≤ decoded_length p.base64_decode text
  with_text-length none m e = rw e (omega arith)
  with_text-length (some text) m e = elim (Bool-cases (text == "")) [
    | inl h ↦ rw (h, e) (omega arith)
    | inr h ↦ rw h (
        omega (
          arith,
          with_call-length (split 64 (p.base64_decode text)) m e,
          split-length 64 (p.base64_decode text),
        ))
  ]

  direct_metadata-length :
      (t : Transaction) (m : TransactionMetadata)
      → direct_metadata p t ≡ done m
      → call_length m ≤ decoded_length p.base64_decode t.text
  unfolding direct_metadata
  direct_metadata-length t m h = with_value (p.big_int t.value) _ h (λ value e h1.
      subst (λ x. call_length x ≤ decoded_length p.base64_decode t.text) (done-injective h1)
        (with_text-length t.text _ refl))

  relayed_transaction-length :
      (m : TransactionMetadata) (inner : Transaction)
      → relayed_transaction p m ≡ done inner
      → decoded_length p.base64_decode inner.text ≤ text_total m.function_args
  unfolding relayed_transaction
  relayed_transaction-length m inner h0 =
      with_value (p.hex_to_string (get_elem? m.function_args 0)) _ h0 (λ text e h1.
        with_value (p.parse_transaction text) _ h1 (λ t parsed h2.
          with_value (p.base64_to_hex t.sender) _ h2 (λ s1 _ h3.
            with_value (p.bech32_encode (some s1)) _ h3 (λ s2 _ h4.
              with_value (p.base64_to_hex t.receiver) _ h4 (λ s3 _ h5.
                with_value (p.bech32_encode (some s3)) _ h5 (λ s4 _ h6.
                  let same : t.text ≡ inner.text =
                    ap (λ (x : Transaction). x.text) (done-injective h6) in
                  subst (λ x. decoded_length p.base64_decode x ≤ text_total m.function_args) same
                    (omega (
                      arith,
                      json text t parsed,
                      hex (get_elem? m.function_args 0) text e,
                      get_elem?-length 0 m.function_args,
                    ))))))))

  relayed_transaction_v2-length :
      (t : Transaction) (m : TransactionMetadata) (inner : Transaction)
      → relayed_transaction_v2 p t m ≡ done inner
      → decoded_length p.base64_decode inner.text ≤ text_total m.function_args
  unfolding relayed_transaction_v2
  relayed_transaction_v2-length t m inner h0 =
      with_value (p.bech32_encode (get_elem? m.function_args 0)) _ h0 (λ r _ h1.
        with_value (p.hex_to_string (get_elem? m.function_args 2)) _ h1 (λ text e h2.
          let same : some (p.base64_encode text) ≡ inner.text =
            ap (λ (x : Transaction). x.text) (done-injective h2) in
          subst (λ x. decoded_length p.base64_decode x ≤ text_total m.function_args) same
            (omega (
              arith,
              ap text_length (codec text),
              hex (get_elem? m.function_args 2) text e,
              get_elem?-length 2 m.function_args,
            ))))

  carried-length :
      (t : Transaction) (m : TransactionMetadata) (inner : Transaction)
      → carried p t m ≡ done inner
      → decoded_length p.base64_decode inner.text < call_length m
  unfolding carried
  carried-length t m inner h = elim (Bool-cases (is_relayed m)) [
    | inl v1 ↦
        let name : m.function_name ≡ some "relayedTx" = (option_text_iff _ _).0 (and_left _ _ v1) in
        let read : relayed_transaction p m ≡ done inner = sym (if_true (is_relayed m) _ _ v1) ∙ h in
        rw name (omega (arith, relayed_transaction-length m inner read))
    | inr no_v1 ↦
        let h2 : (if is_relayed_v2 m then relayed_transaction_v2 p t m else thrown) ≡ done inner =
          sym (if_false (is_relayed m) _ _ no_v1) ∙ h in
        elim (Bool-cases (is_relayed_v2 m)) [
          | inl v2 ↦
              let name : m.function_name ≡ some "relayedTxV2" =
                (option_text_iff _ _).0 (and_left _ _ v2) in
              let read : relayed_transaction_v2 p t m ≡ done inner =
                sym (if_true (is_relayed_v2 m) _ _ v2) ∙ h2 in
              rw name (omega (arith, relayed_transaction_v2-length t m inner read))
          | inr no_v2 ↦
              absurd (
                let e : thrown ≡ done inner = sym (if_false (is_relayed_v2 m) _ _ no_v2) ∙ h2 in cc)
        ]
  ]

  or_direct-finished :
      (t : Transaction) (m : TransactionMetadata) (result : Outcome TransactionMetadata)
      → (final : Outcome TransactionMetadata) × (or_direct p t m (Run.finished result)
          ≡ Run.finished final)
  or_direct-finished t m (done inner) = (done inner, refl)
  or_direct-finished t m thrown = (_, refl)

  run_carried :
      (fuel : ℕ) (t : Transaction) (m : TransactionMetadata) (inner : Transaction)
      (result : Outcome TransactionMetadata)
      → direct_metadata p t ≡ done m
      → carried p t m ≡ done inner
      → get_normal_transaction_metadata p fuel inner ≡ Run.finished result
      → get_normal_transaction_metadata p (suc fuel) t ≡ or_direct p t m (Run.finished result)
  unfolding get_normal_transaction_metadata
  run_carried fuel t m inner result e c first =
      rw (e, c, get_normal_transaction_metadata) (ap (λ r. or_direct p t m r) first)

  -- With more fuel than the decoded text of the transaction is long, the recursion ends, and how much
  -- more there is changes nothing. It is supposed of the package that the text of hexadecimal digits is
  -- no longer than the digits, that what is encoded decodes to itself, and that the text that a parsed
  -- transaction carries is no longer, decoded, than what was parsed.
  pub get_normal_transaction_metadata-finished :
      (fuel other : ℕ) (t : Transaction)
      → decoded_length p.base64_decode t.text < fuel
      → decoded_length p.base64_decode t.text < other
      → (result : Outcome TransactionMetadata) × (get_normal_transaction_metadata p fuel t
          ≡ Run.finished result)
        × (get_normal_transaction_metadata p other t ≡ Run.finished result)
  unfolding get_normal_transaction_metadata
  get_normal_transaction_metadata-finished zero other t enough also = absurd (omega arith)
  get_normal_transaction_metadata-finished (suc fuel) zero t enough also = absurd (omega arith)
  get_normal_transaction_metadata-finished (suc fuel) (suc other) t enough also =
      elim (Outcome-cases (direct_metadata p t)) [
        | inl e ↦ (
          thrown,
          rw (e, get_normal_transaction_metadata) refl,
          rw (e, get_normal_transaction_metadata) refl,
        )
        | inr (m, e) ↦ elim (Outcome-cases (carried p t m)) [
          | inl c ↦ (
            done (adjust_result p t m),
            rw (e, c, get_normal_transaction_metadata) refl,
            rw (e, c, get_normal_transaction_metadata) refl,
          )
          | inr (inner, c) ↦
              let smaller : decoded_length p.base64_decode inner.text
                  < decoded_length p.base64_decode t.text =
                (omega (arith, carried-length t m inner c, direct_metadata-length t m e)) in
              let (result, first, second) =
                get_normal_transaction_metadata-finished fuel other inner
                  (omega (arith, smaller, enough)) (omega (arith, smaller, also)) in
              let (final, is) = or_direct-finished t m result in
              (
                final,
                run_carried fuel t m inner result e c first ∙ is,
                run_carried other t m inner result e c second ∙ is,
              )
        ]
      ]
