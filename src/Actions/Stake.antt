-- ===== src/Actions/Stake.antt =====
-- Delegations to staking providers:
-- src/endpoints/transactions/transaction-action/recognizers/staking/transaction.action.stake.recognizer.service.ts.
use api_elrond_com.Common.{
  String, not, ◌&&◌, ◌||◌, Option, none, some, List, [], ◌∷◌, get_elem?, filter, text_length,
  nat_beq, ◌+text◌, option_eq, string_eq, ◌==◌, if◌then◌else◌,
}
use api_elrond_com.Providers.{Provider}
use api_elrond_com.Actions.{
  TransactionMetadata, TransactionActionCategory, ActionArguments, TransactionAction, Package,
}
use api_elrond_com.Actions.Throws.{Outcome, done, ◌>>=◌}

-- Of an identity, what is read.
pub record IdentityName : Type 0 where
  pub identity : Option String
  pub name : Option String
  pub avatar : Option String

pub record ProviderDetails : Type 0 where
  pub provider_name : String
  pub provider_avatar : String

abbrev pub or_text : Option String → String → String
or_text none s = s
or_text (some t) s = t

-- A name of 192 characters is none.
abbrev pub named : String → Option String → String
named name none = name
named name (some given) =
    if not (given == "") && not (nat_beq (text_length given) 192) then given else name

abbrev pub details_from : String → List IdentityName → ProviderDetails
details_from name [] = record { provider_name = name; provider_avatar = "" }
details_from name (i ∷ matching) = record {
  provider_name = named name i.name;
  provider_avatar = or_text i.avatar "";
}

unfoldable pub provider_details : List IdentityName → Provider → ProviderDetails
provider_details identities v =
    details_from (or_text v.identity v.provider)
      (filter (λ (x : IdentityName). x.identity == v.identity) identities)

-- The details under an address; those of a later provider stand for those of an earlier one.
unfoldable pub find_provider : List IdentityName → List Provider → String → Option ProviderDetails
unfolding provider_details
find_provider identities [] address = none
find_provider identities (v ∷ providers) address =
    elim (find_provider identities providers address) [
      | some details ↦ some details
      | none ↦ if v.provider == address then some (provider_details identities v) else none
    ]

module _ (p : Package) where
  abbrev pub get_delegate_action :
      TransactionMetadata → ProviderDetails → Outcome (Option TransactionAction)
  get_delegate_action m d = done (
      some (record {
        category = TransactionActionCategory.stake;
        name = "delegate";
        description =
            "Delegate "
            +text p.to_denominated_string m.value (some 18)
            +text " eGLD to staking provider "
            +text d.provider_name;
        arguments = ActionArguments.provider (some m.value) d.provider_name d.provider_avatar;
      }))

  abbrev pub get_un_delegate_action :
      TransactionMetadata → ProviderDetails → Outcome (Option TransactionAction)
  get_un_delegate_action m d = do
    value ← p.hex_to_big_int (get_elem? m.function_args 0)
    done (
        some (record {
          category = TransactionActionCategory.stake;
          name = "unDelegate";
          description =
              "Undelegate "
              +text p.to_denominated_string value (some 18)
              +text " eGLD from staking provider "
              +text d.provider_name;
          arguments = ActionArguments.provider (some value) d.provider_name d.provider_avatar;
        }))

  abbrev pub get_action :
      TransactionMetadata → ProviderDetails → String → Outcome (Option TransactionAction)
  get_action m d action = done (
      some (record {
        category = TransactionActionCategory.stake;
        name = or_text m.function_name "";
        description = action +text " from staking provider " +text d.provider_name;
        arguments = ActionArguments.provider none d.provider_name d.provider_avatar;
      }))

  abbrev pub stake_action :
      String → TransactionMetadata → ProviderDetails → Outcome (Option TransactionAction)
  stake_action function m d =
      if (function == "delegate") || (function == "stake")
      then get_delegate_action m d
      else if function == "unDelegate"
      then get_un_delegate_action m d
      else if function == "claimRewards"
      then get_action m d "Claim rewards"
      else if function == "reDelegateRewards"
      then get_action m d "Redelegate rewards"
      else if function == "withdraw"
      then get_action m d "Withdraw"
      else done none

  -- `recognize`, on the details of the providers that are read, or cached for an hour.
  unfoldable pub recognize_stake :
      (String → Option ProviderDetails) → TransactionMetadata → Outcome (Option TransactionAction)
  recognize_stake details m = elim (details m.receiver) [
    | none ↦ done none
    | some d ↦ elim (m.function_name) [
      | none ↦ done none
      | some function ↦ stake_action function m d
    ]
  ]
