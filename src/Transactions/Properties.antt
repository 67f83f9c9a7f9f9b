-- ===== src/Transactions/Properties.antt =====
-- What is shown of a token that is transferred: `getTokenTransferProperties` and its raw form, of
-- src/endpoints/tokens/token.transfer.service.ts.
use api_elrond_com.Common.{
  ℕ, String, ◌||◌, Option, none, some, List, [], ◌∷◌, nat_eq, option_eq, string_eq, ◌==◌, ◌+text◌,
  split, if◌then◌else◌,
}
use api_elrond_com.Transactions.{operation_type_eq}

pub record TokenTransferProperties : Type 0 where
  pub type : String
  pub token : Option String
  pub collection : Option String
  pub identifier : Option String
  pub ticker : String
  pub decimals : Option ℕ
  pub name : String
  pub svg_url : String

-- Of a token's properties and assets, what the service reads.
pub record EsdtProperties : Type 0 where
  pub type : String
  pub name : String
  pub decimals : Option ℕ

abbrev pub first_or_empty : List String → String
first_or_empty [] = ""
first_or_empty (s ∷ rest) = s

-- 45 is `-`.
unfoldable pub get_token_transfer_properties_raw :
    String → Option EsdtProperties → Option String → Option TokenTransferProperties
unfolding split
get_token_transfer_properties_raw identifier none assets = none
get_token_transfer_properties_raw identifier (some p) assets = some (record {
  type = p.type;
  name = p.name;
  ticker = elim assets [ none ↦ identifier | some svg ↦ first_or_empty (split 45 identifier) ];
  svg_url = elim assets [ none ↦ "" | some svg ↦ svg ];
  token = if p.type == "FungibleESDT" then some identifier else none;
  collection = if p.type == "FungibleESDT" then none else some identifier;
  identifier = none;
  decimals = if (p.type == "FungibleESDT") || (p.type == "MetaESDT") then p.decimals else none;
})

-- With a nonce, the identifier of the item in its collection.
unfoldable pub get_token_transfer_properties :
    Option TokenTransferProperties → String → Option String → Option TokenTransferProperties
get_token_transfer_properties none identifier item = none
get_token_transfer_properties (some p) identifier none = some p
get_token_transfer_properties (some p) identifier (some n) =
    some (if n == "" then p else record p { identifier = some (identifier +text "-" +text n) })
