-- ===== src/Tokens.antt =====
-- The roles of addresses on a token: `setTokenRole` and `setCollectionRole` of src/utils/token.helpers.ts,
-- the loop of `getEsdtAddressesRolesRaw` (src/endpoints/esdt/esdt.service.ts), and the loops of
-- `getTokenRolesFromElastic` and `getTokenRolesForIdentifierAndAddress`
-- (src/endpoints/tokens/token.service.ts).
pub mod Answers
pub mod Elastic
mod Tests
use api_elrond_com.Common.{
  ℕ, String, Bool, true, false, Option, none, some, List, [], ◌∷◌, ◌++◌, find?, contains, option_eq,
  string_eq, ◌==◌, is_truthy, if◌then◌else◌,
}

-- The flags of non-fungible tokens, which none of these operations sets, are left out.
pub record TokenRoles : Type 0 where
  pub address : Option String
  pub can_local_mint : Bool
  pub can_local_burn : Bool
  pub roles : List String

pub record CollectionRoles : Type 0 where
  pub address : Option String
  pub can_create : Bool
  pub can_burn : Bool
  pub can_add_quantity : Bool
  pub can_update_attributes : Bool
  pub can_add_uri : Bool
  pub can_transfer : Option Bool
  pub roles : List String

abbrev pub new_token_roles : Option String → TokenRoles
new_token_roles address = record {
  address = address;
  can_local_mint = false;
  can_local_burn = false;
  roles = [];
}

abbrev pub new_collection_roles : Option String → CollectionRoles
new_collection_roles address = record {
  address = address;
  can_create = false;
  can_burn = false;
  can_add_quantity = false;
  can_update_attributes = false;
  can_add_uri = false;
  can_transfer = none;
  roles = [];
}

unfoldable pub set_token_role : TokenRoles → String → TokenRoles
set_token_role r role = record {
  address = r.address;
  can_local_mint = if role == "ESDTRoleLocalMint" then true else r.can_local_mint;
  can_local_burn = if role == "ESDTRoleLocalBurn" then true else r.can_local_burn;
  roles = r.roles ++ role ∷ [];
}

unfoldable pub set_collection_role : CollectionRoles → String → CollectionRoles
set_collection_role r role = record {
  address = r.address;
  can_create = if role == "ESDTRoleNFTCreate" then true else r.can_create;
  can_burn = if role == "ESDTRoleNFTBurn" then true else r.can_burn;
  can_add_quantity = if role == "ESDTRoleNFTAddQuantity" then true else r.can_add_quantity;
  can_add_uri = if role == "ESDTRoleNFTAddURI" then true else r.can_add_uri;
  can_update_attributes =
      if role == "ESDTRoleNFTUpdateAttributes" then true else r.can_update_attributes;
  can_transfer = if role == "ESDTTransferRole" then some true else r.can_transfer;
  roles = r.roles ++ role ∷ [];
}

-- `BinaryUtils` of the package `@multiversx/sdk-nestjs`: a value that is no address gives none.
pub record Binary : Type 0 where
  pub try_base64_to_address : String → Option String
  pub base64_decode : String → String

module _ (binary : Binary) where
  abbrev pub close_current : List TokenRoles → TokenRoles → List TokenRoles
  close_current done current = if is_truthy current.address then done ++ current ∷ [] else done

  -- The loop over the values of the contract's answer: `current` collects roles up to the next address.
  unfoldable pub read_roles : List TokenRoles → TokenRoles → List String → List TokenRoles
  read_roles done current [] = close_current done current
  read_roles done current (value ∷ values) =
      let address = binary.try_base64_to_address value in
      let next = read_roles (close_current done current) (new_token_roles address) values in
      let more = read_roles done (set_token_role current (binary.base64_decode value)) values in
      if is_truthy address then next else more

  unfoldable pub get_esdt_addresses_roles_raw : Option (List String) → List TokenRoles
  unfolding read_roles
  get_esdt_addresses_roles_raw none = []
  get_esdt_addresses_roles_raw (some values) = read_roles [] (new_token_roles none) values

abbrev pub find_roles : String → List TokenRoles → Option TokenRoles
find_roles address roles = find? (λ (r : TokenRoles). r.address == some address) roles

abbrev pub or_new : String → Option TokenRoles → TokenRoles
or_new address none = new_token_roles (some address)
or_new address (some r) = r

-- The role goes to the first roles of the address, or to new ones at the end.
unfoldable pub add_address : String → String → List TokenRoles → List TokenRoles
add_address role address [] = set_token_role (new_token_roles (some address)) role ∷ []
add_address role address (r ∷ roles) =
    if r.address == some address
    then set_token_role r role ∷ roles
    else r ∷ add_address role address roles

unfoldable pub add_addresses : String → List String → List TokenRoles → List TokenRoles
unfolding add_address
add_addresses role [] roles = roles
add_addresses role (address ∷ addresses) roles =
    add_addresses role addresses (add_address role address roles)

-- `token.roles`: the addresses of each role; `distinct` is of the package `@multiversx/sdk-nestjs`.
module _ (distinct : List String → List String) where
  unfoldable pub add_roles : List (String × List String) → List TokenRoles → List TokenRoles
  unfolding add_addresses
  add_roles [] roles = roles
  add_roles ((role, addresses) ∷ rest) roles =
      add_roles rest (add_addresses role (distinct addresses) roles)

  unfoldable pub get_token_roles_from_elastic : List (String × List String) → List TokenRoles
  unfolding add_roles
  get_token_roles_from_elastic token_roles = add_roles token_roles []

  unfoldable pub set_roles_of : String → List (String × List String) → TokenRoles → TokenRoles
  set_roles_of address [] r = r
  set_roles_of address ((role, addresses) ∷ rest) r =
      set_roles_of address rest
        (if contains (distinct addresses) address then set_token_role r role else r)

  -- Before the address is deleted from the result.
  unfoldable pub get_token_roles_for_address : String → List (String × List String) → TokenRoles
  unfolding set_roles_of
  get_token_roles_for_address address token_roles =
      set_roles_of address token_roles (new_token_roles (some address))
