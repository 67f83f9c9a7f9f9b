-- ===== src/Actions/Mex.antt =====
-- The contracts of the exchange, and the actions on them that only read the metadata:
-- src/endpoints/mex/mex.settings.service.ts, and the recognizers of the distribution, the farms, the
-- wrapping and the locked assets of src/endpoints/transactions/transaction-action/recognizers/mex.
pub mod Settings
pub mod Pair
use api_elrond_com.Common.{
  ℕ, ◌+◌, String, Bool, true, false, not, ◌&&◌, ◌||◌, Option, none, some, List, [], ◌∷◌, ◌++◌,
  length, sum, map, any, split, to_text, ◌+text◌, option_eq, string_eq, ◌==◌, if◌then◌else◌,
}
use api_elrond_com.Transactions.Properties.{first_or_empty}
use api_elrond_com.Actions.{
  TransactionMetadataTransfer, TransactionMetadata, TransactionActionCategory, ActionArguments,
  TransactionAction, Package,
}
use api_elrond_com.Actions.EsdtNft.{
  get_multi_transfer_action, get_multi_transfer_action_with_ticker,
}

pub record MexSettings : Type 0 where
  pub pair_contracts : List String
  pub farm_contracts : List String
  pub wrap_contracts : List String
  pub router_factory_contract : String
  pub distribution_contract : String
  pub locked_asset_contract : String
  pub locked_asset_identifier : Option String
  pub locked_asset_identifier_v2 : Option String
  pub mex_id : String
  pub wegld_id : String

-- What the service has: the settings, and the contracts that are kept in the local cache.
pub record MexState : Type 0 where
  pub settings : Option MexSettings
  pub cached_contracts : Option (List String)

abbrev pub has : List String → String → Bool
has xs x = any (λ y. y == x) xs

unfoldable pub get_transfers : TransactionMetadata → Option (List TransactionMetadataTransfer)
get_transfers m = elim (m.transfers) [
  | none ↦ none
  | some transfers ↦ elim transfers [ [] ↦ none | t ∷ others ↦ some (t ∷ others) ]
]

abbrev pub contracts_of : Option MexSettings → List String
contracts_of none = []
contracts_of (some s) =
    s.distribution_contract
    ∷ s.locked_asset_contract
    ∷ s.router_factory_contract
    ∷ (s.farm_contracts ++ (s.pair_contracts ++ s.wrap_contracts))

unfoldable pub get_mex_contracts_raw : MexState → List String
get_mex_contracts_raw state = contracts_of state.settings

abbrev pub cached_or : List String → Option (List String) → List String
cached_or raw none = raw
cached_or raw (some contracts) = contracts

unfoldable pub get_mex_contracts : MexState → List String
unfolding get_mex_contracts_raw
get_mex_contracts state = cached_or (get_mex_contracts_raw state) state.cached_contracts

unfoldable pub is_mex_interaction : MexState → TransactionMetadata → Bool
unfolding get_mex_contracts
is_mex_interaction state m = has (get_mex_contracts state) m.receiver

-- The distribution.
unfoldable pub recognize_distribution : MexSettings → TransactionMetadata → Option TransactionAction
recognize_distribution s m =
    if (m.receiver == s.distribution_contract) && (m.function_name == some "claimLockedAssets")
    then some (record {
      category = TransactionActionCategory.mex;
      name = "claimLockedAssets";
      description = "Claim locked assets";
      arguments = ActionArguments.no_arguments;
    })
    else none

-- The farms: the names of the functions, and for each group the name and the words of the action.
pub record FarmCase : Type 0 where
  pub functions : List String
  pub name : String
  pub action : String

abbrev pub farm_cases : List FarmCase
farm_cases =
    record {
      functions = "enterFarm" ∷ "enterFarmProxy" ∷ [];
      name = "enterFarm";
      action = "Enter farm with";
    }
    ∷ record {
      functions = "enterFarmAndLockRewards" ∷ "enterFarmAndLockRewardsProxy" ∷ [];
      name = "enterFarm";
      action = "Enter farm and lock rewards with";
    }
    ∷ record {
      functions = "exitFarm" ∷ "exitFarmProxy" ∷ [];
      name = "exitFarm";
      action = "Exit farm with";
    }
    ∷ record {
      functions = "claimRewards" ∷ "claimRewardsProxy" ∷ [];
      name = "claimRewards";
      action = "Claim rewards for";
    }
    ∷ record {
      functions = "compoundRewards" ∷ "compoundRewardsProxy" ∷ [];
      name = "compoundRewards";
      action = "Reinvest rewards for";
    }
    ∷ record {
      functions = "stakeFarm" ∷ "stakeFarmProxy" ∷ [];
      name = "enterFarm";
      action = "Stake farm with";
    }
    ∷ record {
      functions = "stakeFarmTokens" ∷ "stakeFarmTokensProxy" ∷ [];
      name = "enterFarm";
      action = "Stake farm tokens with";
    }
    ∷ record {
      functions = "unstakeFarm" ∷ "unstakeFarmProxy" ∷ [];
      name = "exitFarm";
      action = "Unstake farm with";
    }
    ∷ record {
      functions = "unstakeFarmTokens" ∷ "unstakeFarmTokensProxy" ∷ [];
      name = "exitFarm";
      action = "Unstake farm tokens with";
    }
    ∷ record {
      functions = "claimDualYield" ∷ "claimDualYieldProxy" ∷ [];
      name = "claimRewards";
      action = "Claim dual yield for";
    }
    ∷ record { functions = "unbondFarm" ∷ []; name = "unbondFarm"; action = "Unbond farm with" }
    ∷ []

abbrev pub find_case : String → List FarmCase → Option FarmCase
find_case function [] = none
find_case function (c ∷ cases) =
    let later = find_case function cases in if has c.functions function then some c else later

module _ (p : Package) where
  unfoldable pub recognize_farm : MexSettings → TransactionMetadata → Option TransactionAction
  unfolding get_multi_transfer_action_with_ticker
  recognize_farm s m =
      if not (has s.farm_contracts m.receiver) then none else (elim (m.function_name) [
        | none ↦ none
        | some function ↦ elim (find_case function farm_cases) [
          | none ↦ none
          | some c ↦
              get_multi_transfer_action_with_ticker p m TransactionActionCategory.mex c.name
                c.action
        ]
      ])

  -- 45 is `-`. An identifier that is empty counts as none.
  abbrev pub get_wrap_action : MexSettings → TransactionMetadata → Option TransactionAction
  get_wrap_action s m =
      if s.wegld_id == ""
      then none
      else some (record {
        category = TransactionActionCategory.mex;
        name = "wrapEgld";
        description = "Wrap " +text p.to_denominated_string m.value none +text " eGLD";
        arguments =
            ActionArguments.wrapped s.wegld_id (first_or_empty (split 45 s.wegld_id)) m.value
              m.receiver;
      })

  unfoldable pub recognize_wrap : MexSettings → TransactionMetadata → Option TransactionAction
  unfolding get_multi_transfer_action_with_ticker
  recognize_wrap s m =
      if not (has s.wrap_contracts m.receiver)
      then none
      else if m.function_name == some "wrapEgld"
      then get_wrap_action s m
      else if m.function_name == some "unwrapEgld"
      then get_multi_transfer_action_with_ticker p m TransactionActionCategory.mex "unwrapEgld"
          "Unwrap"
      else none

  -- The locked assets.
  abbrev pub get_merge_locked_asset_tokens : TransactionMetadata → Option TransactionAction
  get_merge_locked_asset_tokens m = elim (get_transfers m) [
    | none ↦ none
    | some transfers ↦
        get_multi_transfer_action p m TransactionActionCategory.mex "mergeLockedAssetTokens" (
          "Merge "
          +text p.to_text (length transfers)
          +text " LKMEX positions into a single LKMEX position of value "
          +text p.to_denominated_string
              (sum (map (λ (t : TransactionMetadataTransfer). t.value) transfers)) none)
  ]

  abbrev pub get_assets_action : TransactionMetadata → String → Option TransactionAction
  get_assets_action m action =
      get_multi_transfer_action_with_ticker p m TransactionActionCategory.mex
        (elim (m.function_name) [ none ↦ "" | some f ↦ f ]) action

  abbrev pub described : String → Option TransactionAction → Option TransactionAction
  described description none = none
  described description (some action) = some (record action { description = description })

  unfoldable pub recognize_locked_asset :
      MexSettings → TransactionMetadata → Option TransactionAction
  unfolding get_transfers get_multi_transfer_action get_multi_transfer_action_with_ticker
  recognize_locked_asset s m =
      if not (m.receiver == s.locked_asset_contract)
      then none
      else if m.function_name == some "lockAssets"
      then get_assets_action m "Lock"
      else if m.function_name == some "unlockAssets"
      then described "Unlock assets" (get_assets_action m "Unlock")
      else if m.function_name == some "mergeLockedAssetTokens"
      then get_merge_locked_asset_tokens m
      else none
