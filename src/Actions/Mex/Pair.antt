-- ===== src/Actions/Mex/Pair.antt =====
-- Swaps and liquidity:
-- src/endpoints/transactions/transaction-action/recognizers/mex/mex.pair.action.recognizer.service.ts.
-- A swap pushes what it is to give to the transfers of the metadata, which the recognizers share: the
-- metadata comes back.
use api_elrond_com.Common.{
  ℕ, zero, suc, ◌+◌, ◌/◌, String, not, ◌&&◌, ◌||◌, Option, none, some, List, [], ◌∷◌, ◌++◌, length,
  get_elem?, drop, map, ◌+text◌, join, option_eq, string_eq, ◌==◌, if◌then◌else◌,
}
use api_elrond_com.Transactions.Properties.{TokenTransferProperties}
use api_elrond_com.Actions.{
  TransactionMetadata, TransactionActionCategory, TransactionAction, Package,
}
use api_elrond_com.Actions.Throws.{Outcome, done, ◌>>=◌}
use api_elrond_com.Actions.EsdtNft.{
  get_multi_transfer_action, get_multi_transfer_action_with_ticker,
}
use api_elrond_com.Actions.Mex.{MexSettings, has, get_transfers}

abbrev pub Recognized : Type 0
Recognized = Outcome (Option TransactionAction × TransactionMetadata)

pub record Swap : Type 0 where
  pub properties : TokenTransferProperties
  pub denominated_value : String

-- `metadata.transfers?.push`
abbrev pub push : TransactionMetadata → TokenTransferProperties → ℕ → TransactionMetadata
push m properties value = elim (m.transfers) [
  | none ↦ m
  | some transfers ↦ record m {
    transfers = some (transfers ++ record { properties = some properties; value = value } ∷ []);
  }
]

abbrev pub first_transfer : TransactionMetadata → Option (TokenTransferProperties × ℕ)
first_transfer m = elim (get_transfers m) [
  | none ↦ none
  | some transfers ↦ elim transfers [
    | [] ↦ none
    | t ∷ others ↦ elim (t.properties) [
      | none ↦ none
      | some properties ↦ some (properties, t.value)
    ]
  ]
]

abbrev pub last_swap : Swap → List Swap → Swap
last_swap first [] = first
last_swap first (s ∷ swaps) = last_swap s swaps

-- All but the last.
abbrev pub but_last : List Swap → List Swap
but_last [] = []
but_last (s ∷ []) = []
but_last (s ∷ t ∷ swaps) = s ∷ but_last (t ∷ swaps)

module _ (p : Package)
    (properties_of : String → Option String → Option TokenTransferProperties) where
  abbrev pub swap_description : TransactionMetadata → Swap → Swap → String
  swap_description m from_swap to_swap =
      if m.function_name == some "swapTokensFixedOutput"
      then "Swap a maximum of " +text from_swap.denominated_value +text " "
        +text from_swap.properties.ticker +text " for " +text to_swap.denominated_value +text " "
        +text to_swap.properties.ticker
      else "Swap " +text from_swap.denominated_value +text " " +text from_swap.properties.ticker
        +text " for a minimum of " +text to_swap.denominated_value +text " "
        +text to_swap.properties.ticker

  abbrev pub swap_of : TokenTransferProperties → ℕ → Swap
  swap_of properties value = record {
    properties = properties;
    denominated_value = p.to_denominated_string value properties.decimals;
  }

  unfoldable pub get_swap_action : TransactionMetadata → Recognized
  unfolding get_transfers get_multi_transfer_action
  get_swap_action m = elim (first_transfer m) [
    | none ↦ done (none, m)
    | some (pair1, value) ↦ do
      token ← p.hex_to_string (get_elem? m.function_args 0)
      destination ← p.hex_to_big_int (get_elem? m.function_args 1)
      elim (properties_of token none) [
        | none ↦ done (none, m)
        | some pair2 ↦
            let pushed = push m pair2 destination in
            done (
              get_multi_transfer_action p pushed TransactionActionCategory.mex "swap"
                  (swap_description m (swap_of pair1 value) (swap_of pair2 destination)),
              pushed,
            )
      ]
  ]

  -- The loop over the swaps, on the arguments that are left: the swaps, if every token has properties,
  -- and the metadata as they are then.
  unfoldable pub read_swaps :
      ℕ → List String → TransactionMetadata → Outcome (Option (List Swap) × TransactionMetadata)
  read_swaps zero args m = done (some [], m)
  read_swaps (suc count) args m = do
    token ← p.hex_to_string (get_elem? args 2)
    value ← p.hex_to_big_int (get_elem? args 3)
    elim (properties_of token none) [
      | none ↦ done (none, m)
      | some properties ↦ do
        (swaps, pushed) ← read_swaps count (drop 4 args) (push m properties value)
        done (
          elim swaps [ none ↦ none | some others ↦ some (swap_of properties value ∷ others) ],
          pushed,
        )
    ]

  abbrev pub multi_description : Swap → List Swap → String
  multi_description first others =
      let last = last_swap first others in
      "Swap "
      +text first.denominated_value
      +text " "
      +text first.properties.ticker
      +text " for a minimum of "
      +text last.denominated_value
      +text " "
      +text last.properties.ticker
      +text " with intermediate pair(s) "
      +text join ", " (map (λ (s : Swap). s.properties.ticker) (but_last others))

  -- `i < length / 4` on fractions: as many rounds as the fours that the arguments begin.
  unfoldable pub get_multi_swap_action : TransactionMetadata → Recognized
  unfolding get_transfers read_swaps get_multi_transfer_action
  get_multi_swap_action m = elim (first_transfer m) [
    | none ↦ done (none, m)
    | some (pair1, value) ↦ do
      (swaps, pushed) ← read_swaps ((length m.function_args + 3) / 4) m.function_args m
      done (
        elim swaps [
          | none ↦ none
          | some others ↦
              get_multi_transfer_action p pushed TransactionActionCategory.mex "multiSwap"
                (multi_description (swap_of pair1 value) others)
        ],
        pushed,
      )
  ]

  abbrev pub liquidity_action : TransactionMetadata → String → String → Recognized
  liquidity_action m name action =
      done (get_multi_transfer_action_with_ticker p m TransactionActionCategory.mex name action, m)

  -- `recognize`
  unfoldable pub recognize_pair : MexSettings → TransactionMetadata → Recognized
  unfolding get_swap_action get_multi_swap_action get_multi_transfer_action_with_ticker
  recognize_pair s m =
      if not (has s.pair_contracts m.receiver) && not (s.router_factory_contract == m.receiver)
      then done (none, m)
      else if (m.function_name == some "swapTokensFixedInput")
          || (m.function_name == some "swapTokensFixedOutput")
      then get_swap_action m
      else if (m.function_name == some "addLiquidity")
          || (m.function_name == some "addLiquidityProxy")
      then liquidity_action m "addLiquidity" "Added liquidity for"
      else if (m.function_name == some "removeLiquidity")
          || (m.function_name == some "removeLiquidityProxy")
      then liquidity_action m "removeLiquidity" "Removed liquidity with"
      else if m.function_name == some "multiPairSwap"
      then get_multi_swap_action m
      else done (none, m)
