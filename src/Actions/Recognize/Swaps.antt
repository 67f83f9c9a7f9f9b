-- ===== src/Actions/Recognize/Swaps.antt =====
-- The swaps that a call over several pairs asks for, and what they leave in the metadata.
use Prim.Native.Nat.{◌<◌}
use api_elrond_com.Common.{
  ℕ, zero, suc, ◌+◌, ◌*◌, ◌/◌, ◌≡◌, refl, String, Option, none, some, List, [], ◌∷◌, ◌++◌, length,
  map, All, append_assoc, append-nil, option_eq, string_eq, arith,
}
use api_elrond_com.Transactions.Properties.{TokenTransferProperties}
use api_elrond_com.Actions.{TransactionMetadataTransfer, TransactionMetadata, Package}
use api_elrond_com.Actions.Throws.{done}
use api_elrond_com.Actions.Mex.{get_transfers}
use api_elrond_com.Actions.Mex.Pair.{read_swaps, get_multi_swap_action}

-- The four arguments of a swap, of which two name the token and the amount that are asked for.
pub record SwapArguments : Type 0 where
  pub address : String
  pub function : String
  pub token : String
  pub value : String

-- What they are read as.
pub record KnownSwap : Type 0 where
  pub arguments : SwapArguments
  pub identifier : String
  pub amount : ℕ
  pub properties : TokenTransferProperties

abbrev pub swap_arguments : List KnownSwap → List String → List String
swap_arguments [] rest = rest
swap_arguments (k ∷ known) rest =
    k.arguments.address
    ∷ k.arguments.function
    ∷ k.arguments.token
    ∷ k.arguments.value
    ∷ swap_arguments known rest

abbrev pub asked_for : KnownSwap → TransactionMetadataTransfer
asked_for k = record { properties = some k.properties; value = k.amount }

abbrev pub sent_transfer : TokenTransferProperties → ℕ → TransactionMetadataTransfer
sent_transfer properties value = record { properties = some properties; value = value }

abbrev pub with_transfers :
    TransactionMetadata → List TransactionMetadataTransfer → TransactionMetadata
with_transfers m transfers = record m { transfers = some transfers }

-- A call of `multiPairSwap` with a transfer of a token that has properties, and maybe others.
abbrev pub swap_call :
    TransactionMetadata
    → List KnownSwap
    → SwapArguments
    → List String
    → TokenTransferProperties
    → ℕ
    → List TransactionMetadataTransfer
    → TransactionMetadata
swap_call m known unknown rest properties value transfers = record m {
  function_name = some "multiPairSwap";
  function_args =
      swap_arguments known
        (unknown.address ∷ unknown.function ∷ unknown.token ∷ unknown.value ∷ rest);
  transfers = some (sent_transfer properties value ∷ transfers);
}

module _ (p : Package)
    (properties_of : String → Option String → Option TokenTransferProperties) where
  -- The arguments are read as that token and amount, and the token has those properties.
  pub record IsKnown (k : KnownSwap) : Type 0 where
    pub token : p.hex_to_string (some k.arguments.token) ≡ done k.identifier
    pub value : p.hex_to_big_int (some k.arguments.value) ≡ done k.amount
    pub properties : properties_of k.identifier none ≡ some k.properties

  -- They are read too, but the token has no properties.
  pub record IsUnknown (a : SwapArguments) : Type 0 where
    pub identifier : String
    pub amount : ℕ
    pub token : p.hex_to_string (some a.token) ≡ done identifier
    pub value : p.hex_to_big_int (some a.value) ≡ done amount
    pub properties : properties_of identifier none ≡ none

  read_swaps-pushed :
      (known : List KnownSwap) (unknown : SwapArguments) (rest : List String) (count : ℕ)
      (m : TransactionMetadata) (transfers : List TransactionMetadataTransfer)
      → length known < count
      → All IsKnown known
      → IsUnknown unknown
      → read_swaps p properties_of count
          (swap_arguments known
            (unknown.address ∷ unknown.function ∷ unknown.token ∷ unknown.value ∷ rest))
          (record m { transfers = some transfers })
        ≡ done (none, record m { transfers = some (transfers ++ map asked_for known) })
  unfolding read_swaps
  read_swaps-pushed known unknown rest zero m transfers enough all_known u = absurd (omega arith)
  read_swaps-pushed [] unknown rest (suc count) m transfers enough all_known u =
      rw (u.token, u.value, u.properties, append-nil transfers) refl
  read_swaps-pushed (k ∷ known) unknown rest (suc count) m transfers enough (here, all_known) u =
      let later =
        read_swaps-pushed known unknown rest count m (transfers ++ asked_for k ∷ []) (omega arith)
          all_known u in
      rw
        (
          here.token,
          here.value,
          here.properties,
          later,
          append_assoc transfers (asked_for k ∷ []) (map asked_for known),
        )
        refl

  swap_arguments-length :
      (known : List KnownSwap) (rest : List String)
      → length (swap_arguments known rest) ≡ 4 * length known + length rest
  swap_arguments-length [] rest = omega arith
  swap_arguments-length (k ∷ known) rest = omega (arith, swap_arguments-length known rest)

  -- A swap over several pairs, of which a token has no properties, is not recognized; but the tokens
  -- before it stay in the metadata, behind the transfers that were made.
  pub get_multi_swap_action-pushed :
      (known : List KnownSwap) (unknown : SwapArguments) (rest : List String)
      (m : TransactionMetadata) (properties : TokenTransferProperties) (value : ℕ)
      (transfers : List TransactionMetadataTransfer)
      → All IsKnown known
      → IsUnknown unknown
      → get_multi_swap_action p properties_of
          (swap_call m known unknown rest properties value transfers)
        ≡ done (
          none,
          with_transfers
              (swap_call m known unknown rest properties value transfers)
              (sent_transfer properties value ∷ transfers ++ map asked_for known),
        )
  unfolding get_multi_swap_action get_transfers
  get_multi_swap_action-pushed known unknown rest m properties value transfers all_known u =
      let args = unknown.address ∷ unknown.function ∷ unknown.token ∷ unknown.value ∷ rest in
      let count = (length (swap_arguments known args) + 3) / 4 in
      let enough : length known < count = omega (arith, swap_arguments-length known args) in
      rw
        (read_swaps-pushed known unknown rest count
          (swap_call m known unknown rest properties value transfers)
          (sent_transfer properties value ∷ transfers) enough all_known u)
        refl
