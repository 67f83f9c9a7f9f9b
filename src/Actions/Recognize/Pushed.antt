-- ===== src/Actions/Recognize/Pushed.antt =====
-- How a swap that is not recognized is shown.
use api_elrond_com.Common.{
  ℕ, ◌≡◌, refl, ap, ◌∙◌, Bool-cases, inl, inr, String, true, eq_iff, Option, none, some, List, [],
  ◌∷◌, ◌++◌, map, All, option_eq, string_eq, ◌==◌, arith,
}
use api_elrond_com.Transactions.Properties.{TokenTransferProperties}
use api_elrond_com.Actions.{
  TransactionMetadataTransfer, TransactionMetadata, TransactionActionCategory, ActionArguments,
  Package,
}
use api_elrond_com.Actions.Throws.{done}
use api_elrond_com.Actions.EsdtNft.{
  get_multi_transfer_action, recognize_transfer, recognize_esdt_nft, transfer_details,
  shown_function, shown_args,
}
use api_elrond_com.Actions.Mex.{
  MexSettings, has, get_mex_contracts_raw, get_mex_contracts, contracts_of, cached_or,
  is_mex_interaction, recognize_distribution, recognize_farm, recognize_wrap,
  recognize_locked_asset,
}
use api_elrond_com.Actions.Calls.{recognize_metabonding}
use api_elrond_com.Actions.Recognize.{
  Context, is_active, get_recognizers, recognize_with, recognize_mex, recognize, first_action,
}
use api_elrond_com.Actions.Mex.Pair.{recognize_pair, get_multi_swap_action}
use api_elrond_com.Actions.Recognize.Swaps.{
  SwapArguments, KnownSwap, IsKnown, IsUnknown, asked_for, sent_transfer, with_transfers, swap_call,
  get_multi_swap_action-pushed,
}

abbrev multi_pair_swap : TransactionMetadata → TransactionMetadata
multi_pair_swap m = record m { function_name = some "multiPairSwap" }

-- No other recognizer of the exchange has that function.
module _ (s : MexSettings) (m : TransactionMetadata) where
  distribution_none : recognize_distribution s (multi_pair_swap m) ≡ none
  unfolding recognize_distribution
  distribution_none = elim (Bool-cases (m.receiver == s.distribution_contract)) [
    | inl h ↦ rw h refl
    | inr h ↦ rw h refl
  ]

  module _ (p : Package) where
    farm_none : recognize_farm p s (multi_pair_swap m) ≡ none
    unfolding recognize_farm
    farm_none = elim (Bool-cases (has s.farm_contracts m.receiver)) [
      | inl h ↦ rw h refl
      | inr h ↦ rw h refl
    ]

    wrap_none : recognize_wrap p s (multi_pair_swap m) ≡ none
    unfolding recognize_wrap
    wrap_none = elim (Bool-cases (has s.wrap_contracts m.receiver)) [
      | inl h ↦ rw h refl
      | inr h ↦ rw h refl
    ]

    locked_asset_none : recognize_locked_asset p s (multi_pair_swap m) ≡ none
    unfolding recognize_locked_asset
    locked_asset_none = elim (Bool-cases (m.receiver == s.locked_asset_contract)) [
      | inl h ↦ rw h refl
      | inr h ↦ rw h refl
    ]

    recognize_pair-multi :
        (properties_of : String → Option String → Option TokenTransferProperties)
        → s.router_factory_contract ≡ m.receiver
        → recognize_pair p properties_of s (multi_pair_swap m)
          ≡ get_multi_swap_action p properties_of (multi_pair_swap m)
    unfolding recognize_pair
    recognize_pair-multi properties_of router =
        let on_router : (s.router_factory_contract == m.receiver) ≡ true = (eq_iff _ _).1 router in
        elim (Bool-cases (has s.pair_contracts m.receiver)) [
          | inl h ↦ rw h refl
          | inr h ↦ rw (h, on_router) refl
        ]

module _ (c : Context) where
  metabonding_none :
      (m : TransactionMetadata)
      → recognize_metabonding c.package_of c.metabonding_contract_address (multi_pair_swap m)
        ≡ done none
  unfolding recognize_metabonding
  metabonding_none m = elim (Bool-cases (some m.receiver == c.metabonding_contract_address)) [
    | inl h ↦ rw h refl
    | inr h ↦ rw h refl
  ]

  interaction :
      (s : MexSettings) (m : TransactionMetadata)
      → c.mex_state.settings ≡ some s
      → c.mex_state.cached_contracts ≡ none
      → s.router_factory_contract ≡ m.receiver
      → is_mex_interaction c.mex_state m ≡ true
  unfolding is_mex_interaction get_mex_contracts get_mex_contracts_raw
  interaction s m settings fresh router =
      let on_router : (s.router_factory_contract == m.receiver) ≡ true = (eq_iff _ _).1 router in
      let contracts : get_mex_contracts c.mex_state ≡ contracts_of (some s) =
        ap (λ k. cached_or (contracts_of c.mex_state.settings) k) fresh
        ∙ ap contracts_of settings in
      let among : has (contracts_of (some s)) m.receiver ≡ true = ground (arith, on_router) in
      ap (λ xs. has xs m.receiver) contracts ∙ among

  recognize_mex-pushed :
      (s : MexSettings) (known : List KnownSwap) (unknown : SwapArguments) (rest : List String)
      (m : TransactionMetadata) (properties : TokenTransferProperties) (value : ℕ)
      (transfers : List TransactionMetadataTransfer)
      → c.mex_state.settings ≡ some s
      → c.mex_state.cached_contracts ≡ none
      → s.router_factory_contract ≡ m.receiver
      → All (IsKnown c.package_of c.properties_of) known
      → IsUnknown c.package_of c.properties_of unknown
      → recognize_mex c (swap_call m known unknown rest properties value transfers)
        ≡ done (
          none,
          with_transfers
              (swap_call m known unknown rest properties value transfers)
              (sent_transfer properties value ∷ transfers ++ map asked_for known),
        )
  unfolding recognize_mex recognize_with
  recognize_mex-pushed s known unknown rest m properties value transfers settings fresh router
        all_known u =
      let call = swap_call m known unknown rest properties value transfers in
      let pushed =
        with_transfers call (sent_transfer properties value ∷ transfers ++ map asked_for known) in
      ap (λ o. recognize_with c o call) settings
      ∙ rw
          (
            interaction s call settings fresh router,
            distribution_none s call,
            recognize_pair-multi s call c.package_of c.properties_of router,
            get_multi_swap_action-pushed c.package_of c.properties_of known unknown rest m
                properties value transfers all_known u,
            farm_none s pushed c.package_of,
            wrap_none s pushed c.package_of,
            locked_asset_none s pushed c.package_of,
          )
          refl

  -- Where the exchange is configured and its contracts are not cached, of a call of multiPairSwap on
  -- its router whose first transfer is of a token with properties: if the arguments can be read up to a
  -- token that has no properties, and all tokens before it have some, the call is shown as a plain
  -- transfer, of what was sent and of the tokens before that one, which were only asked for.
  pub first_action-pushed :
      (s : MexSettings) (known : List KnownSwap) (unknown : SwapArguments) (rest : List String)
      (m : TransactionMetadata) (properties : TokenTransferProperties) (value : ℕ)
      (transfers : List TransactionMetadataTransfer)
      → is_active c ≡ true
      → c.mex_state.settings ≡ some s
      → c.mex_state.cached_contracts ≡ none
      → s.router_factory_contract ≡ m.receiver
      → All (IsKnown c.package_of c.properties_of) known
      → IsUnknown c.package_of c.properties_of unknown
      → first_action c
          (get_recognizers [] c)
          (swap_call m known unknown rest properties value transfers)
        ≡ done (
            some (record {
              category = TransactionActionCategory.esdt_nft;
              name = "transfer";
              description = "Transfer";
              arguments =
                  ActionArguments.transferred
                    (transfer_details
                      (sent_transfer properties value ∷ transfers ++ map asked_for known))
                    m.receiver
                    (shown_function c.package_of
                      (swap_call m known unknown rest properties value transfers))
                    (shown_args c.package_of
                      (swap_call m known unknown rest properties value transfers));
            }))
  unfolding first_action recognize recognize_esdt_nft recognize_transfer get_multi_transfer_action
      get_recognizers
  first_action-pushed s known unknown rest m properties value transfers active settings fresh router
        all_known u =
      let call = swap_call m known unknown rest properties value transfers in
      let pushed =
        with_transfers call (sent_transfer properties value ∷ transfers ++ map asked_for known) in
      rw
        (
          active,
          recognize_mex-pushed s known unknown rest m properties value transfers settings fresh
              router all_known u,
          metabonding_none pushed,
        )
        refl
