-- ===== src/Actions/Calls.antt =====
-- Calls of contracts, and claims of the metabonding contract:
-- src/endpoints/transactions/transaction-action/recognizers/sc-calls/transaction.action.sc-calls.recognizer.service.ts
-- and mex.metabonding.action.recognizer.service.ts beside the recognizers of the exchange.
use api_elrond_com.Common.{
  String, Bool, not, ◌&&◌, ◌||◌, Option, none, some, List, [], ◌∷◌, map, get_elem?, any, is_truthy,
  ◌+text◌, join, option_eq, string_eq, ◌==◌, if◌then◌else◌,
}
use api_elrond_com.Actions.{
  TransactionMetadata, TransactionActionCategory, MetabondingWeek, ActionArguments,
  TransactionAction, Package,
}
use api_elrond_com.Actions.Throws.{Outcome, done, ◌>>=◌}

abbrev pub deploy_address : String
deploy_address = "erd1qqqqqqqqqqqqqqqqqqqqqqqqqqqqqqqqqqqqqqqqqqqqqqqqqqqq6gq4hu"

abbrev pub built_in_self_functions : List String
built_in_self_functions =
    "ESDTLocalMint" ∷ "ESDTLocalBurn" ∷ "ESDTNFTCreate" ∷ "ESDTNFTAddQuantity" ∷ "ESDTNFTAddURI"
    ∷ "ESDTNFTUpdateAttributes" ∷ "SaveKeyValue" ∷ []

abbrev pub function_or_empty : TransactionMetadata → String
function_or_empty m = elim (m.function_name) [ none ↦ "" | some f ↦ f ]

unfoldable pub is_self_built_in_function_call : TransactionMetadata → Bool
is_self_built_in_function_call m =
    (m.sender == m.receiver) && any (λ f. f == function_or_empty m) built_in_self_functions

unfoldable pub get_sc_deploy_action : TransactionMetadata → Option TransactionAction
get_sc_deploy_action m =
    if not (m.receiver == deploy_address)
    then none
    else some (record {
      category = TransactionActionCategory.sc_call;
      name = "deploy";
      description = "Smart contract deployment";
      arguments = ActionArguments.no_arguments;
    })

module _ (p : Package) where
  unfoldable pub get_sc_call_action : TransactionMetadata → Option TransactionAction
  unfolding is_self_built_in_function_call
  get_sc_call_action m =
      if not (p.is_smart_contract_address m.receiver || is_self_built_in_function_call m)
      then none
      else if not (is_truthy m.function_name)
      then none
      else some (record {
        category = TransactionActionCategory.sc_call;
        name = function_or_empty m;
        description = "";
        arguments = ActionArguments.no_arguments;
      })

  -- `recognize`
  unfoldable pub recognize_sc_call : TransactionMetadata → Option TransactionAction
  unfolding get_sc_deploy_action get_sc_call_action
  recognize_sc_call m = elim (get_sc_deploy_action m) [
    | some action ↦ some action
    | none ↦ get_sc_call_action m
  ]

  -- The weeks of a claim, one for each four arguments.
  unfoldable pub read_weeks : List (List String) → Outcome (List MetabondingWeek)
  read_weeks [] = done []
  read_weeks (chunk ∷ chunks) = do
    week ← p.hex_to_number (get_elem? chunk 0)
    egld ← p.hex_to_big_int (get_elem? chunk 1)
    lkmex ← p.hex_to_big_int (get_elem? chunk 2)
    others ← read_weeks chunks
    done (record { week = week; egld_staked = egld; lkmex_staked = lkmex } ∷ others)

  abbrev pub week_description : MetabondingWeek → String
  week_description w =
      "week "
      +text (elim (w.week) [ none ↦ "NaN" | some n ↦ p.to_text n ])
      +text ": EGLD "
      +text p.to_denominated_string w.egld_staked none
      +text ", LKMEX "
      +text p.to_denominated_string w.lkmex_staked none

  abbrev pub get_claim_rewards_action : TransactionMetadata → Outcome (Option TransactionAction)
  get_claim_rewards_action m = do
    weeks ← read_weeks (p.split_array_into_chunks m.function_args 4)
    done (
        some (record {
          category = TransactionActionCategory.mex;
          name = "claimRewards";
          description = "Eligible stake for " +text join "; " (map week_description weeks);
          arguments = ActionArguments.weeks weeks m.function_name m.function_args;
        }))

  unfoldable pub recognize_metabonding :
      Option String → TransactionMetadata → Outcome (Option TransactionAction)
  unfolding read_weeks
  recognize_metabonding contract m =
      if not (some m.receiver == contract)
      then done none
      else if m.function_name == some "claimRewards"
      then get_claim_rewards_action m
      else done none
