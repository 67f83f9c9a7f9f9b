-- ===== src/Actions/Recognize.antt =====
-- Which recognizers are asked, and in which order: `getRecognizers` and `getTransactionAction` of
-- src/endpoints/transactions/transaction-action/transaction.action.service.ts, and the recognizer of the
-- exchange, transaction.action.mex.recognizer.service.ts.
pub mod Swaps
pub mod Pushed
use api_elrond_com.Common.{
  ℕ, String, Bool, true, false, not, Option, none, some, List, [], ◌∷◌, is_truthy, if◌then◌else◌,
}
use api_elrond_com.Transactions.Properties.{TokenTransferProperties}
use api_elrond_com.Actions.{TransactionMetadata, Transaction, TransactionAction, Package}
use api_elrond_com.Actions.Throws.{Outcome, done, thrown, ◌>>=◌}
use api_elrond_com.Actions.Transfers.{get_transaction_metadata}
use api_elrond_com.Actions.EsdtNft.{recognize_esdt_nft}
use api_elrond_com.Actions.Mex.{
  MexSettings, MexState, is_mex_interaction, recognize_distribution, recognize_farm, recognize_wrap,
  recognize_locked_asset,
}
use api_elrond_com.Actions.Mex.Pair.{Recognized, recognize_pair}
use api_elrond_com.Actions.Stake.{ProviderDetails, recognize_stake}
use api_elrond_com.Actions.Calls.{recognize_metabonding, recognize_sc_call}

pub data Recognizer : Type 0 where
  mex metabonding esdt_nft stake sc_call : Recognizer

-- The configuration, the exchange, and what other services answer.
pub record Context : Type 0 where
  pub package_of : Package
  pub properties_of : String → Option String → Option TokenTransferProperties
  pub exchange_service_url : Option String
  pub esdt_contract_address : String
  pub metabonding_contract_address : Option String
  pub mex_state : MexState
  pub provider_details : String → Option ProviderDetails

-- `settings !== undefined`: the settings that are missing are `null`, so the test holds of all.
abbrev pub is_active : Context → Bool
is_active c = is_truthy c.exchange_service_url

-- The list is made once; the result is also what is kept.
unfoldable pub get_recognizers : List Recognizer → Context → List Recognizer
get_recognizers [] c =
    let others =
      Recognizer.metabonding ∷ Recognizer.esdt_nft ∷ Recognizer.stake ∷ Recognizer.sc_call ∷ [] in
    if is_active c then Recognizer.mex ∷ others else others
get_recognizers (r ∷ kept) c = r ∷ kept

-- `a ?? b`
abbrev pub or_option :
    Option TransactionAction → Option TransactionAction → Option TransactionAction
or_option none b = b
or_option (some a) b = some a

abbrev pub keep : TransactionMetadata → Outcome (Option TransactionAction) → Recognized
keep m action = do found ← action; done (found, m)

module _ (c : Context) where
  unfoldable pub recognize_with : Option MexSettings → TransactionMetadata → Recognized
  unfolding is_mex_interaction recognize_distribution recognize_pair recognize_farm recognize_wrap
      recognize_locked_asset
  recognize_with none m = done (none, m)
  recognize_with (some s) m =
      if not (is_mex_interaction c.mex_state m)
      then done (none, m)
      else (elim (recognize_distribution s m) [
        | some action ↦ done (some action, m)
        | none ↦ do
          (action, m') ← recognize_pair c.package_of c.properties_of s m
          done (
            or_option action (
                or_option (recognize_farm c.package_of s m') (
                  or_option (recognize_wrap c.package_of s m')
                    (recognize_locked_asset c.package_of s m'))),
            m',
          )
      ])

  unfoldable pub recognize_mex : TransactionMetadata → Recognized
  unfolding recognize_with
  recognize_mex m = recognize_with c.mex_state.settings m

  unfoldable pub recognize : Recognizer → TransactionMetadata → Recognized
  unfolding recognize_mex recognize_metabonding recognize_esdt_nft recognize_stake recognize_sc_call
  recognize Recognizer.mex m = recognize_mex m
  recognize Recognizer.metabonding m =
      keep m (recognize_metabonding c.package_of c.metabonding_contract_address m)
  recognize Recognizer.esdt_nft m =
      keep m (recognize_esdt_nft c.package_of c.properties_of c.esdt_contract_address m)
  recognize Recognizer.stake m = keep m (recognize_stake c.package_of c.provider_details m)
  recognize Recognizer.sc_call m = done (recognize_sc_call c.package_of m, m)

  -- The loop: the first action that is recognized. The recognizers share the metadata.
  unfoldable pub first_action :
      List Recognizer → TransactionMetadata → Outcome (Option TransactionAction)
  unfolding recognize
  first_action [] m = done none
  first_action (r ∷ recognizers) m = do
    (action, m') ← recognize r m
    elim action [ some found ↦ done (some found) | none ↦ first_action recognizers m' ]

  unfoldable pub get_transaction_action :
      ℕ → List Recognizer → Transaction → Outcome (Option TransactionAction)
  unfolding get_transaction_metadata get_recognizers first_action
  get_transaction_action fuel kept t = do
    m ← get_transaction_metadata c.package_of c.properties_of fuel t
    first_action (get_recognizers kept c) m
