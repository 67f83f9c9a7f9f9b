-- ===== src/Tokens/Tests.antt =====
-- The roles of a few addresses, and the properties at inputs of their own.
use api_elrond_com.Common.{
  ◌≡◌, refl, String, none, some, List, [], ◌∷◌, map, contains, IsDistinct, string_eq, ◌==◌,
  if◌then◌else◌, arith,
}
use api_elrond_com.Tokens.{
  Binary, find_roles, get_esdt_addresses_roles_raw, get_token_roles_from_elastic,
  get_token_roles_for_address,
}
use api_elrond_com.Tokens.Answers.{Entry, roles_of, get_esdt_addresses_roles_raw-flatten}
use api_elrond_com.Tokens.Elastic.{has_role, get_token_roles-agree}

abbrev binary : Binary
binary = record {
  try_base64_to_address = λ v. if v == "a" then some "A" else if v == "b" then some "B" else none;
  base64_decode = λ v. v;
}

abbrev entries : List Entry
entries =
    record { key = "a"; roles = "ESDTRoleLocalMint" ∷ [] } ∷ record { key = "b"; roles = [] } ∷ []

get_esdt_addresses_roles_raw-flatten_example :
    get_esdt_addresses_roles_raw binary (some ("a" ∷ "ESDTRoleLocalMint" ∷ "b" ∷ []))
    ≡ map (roles_of binary) entries
get_esdt_addresses_roles_raw-flatten_example =
    get_esdt_addresses_roles_raw-flatten binary entries ((refl, (refl, tt)), ((refl, tt), tt))

keep_last : List String → List String
keep_last [] = []
keep_last (x ∷ xs) = if contains (keep_last xs) x then keep_last xs else x ∷ keep_last xs

keep_last-IsDistinct : (xs : List String) → IsDistinct (keep_last xs)
unfolding keep_last
keep_last-IsDistinct [] = tt
keep_last-IsDistinct (x ∷ xs) = ground (arith, keep_last-IsDistinct xs)

abbrev token_roles : List (String × List String)
token_roles = ("ESDTRoleLocalMint", "A" ∷ "B" ∷ "A" ∷ []) ∷ ("ESDTRoleLocalBurn", "B" ∷ []) ∷ []

get_token_roles-agree_example :
    find_roles "B" (get_token_roles_from_elastic keep_last token_roles) ≡ (
      if has_role keep_last "B" token_roles
      then some (get_token_roles_for_address keep_last "B" token_roles)
      else none)
get_token_roles-agree_example = get_token_roles-agree keep_last keep_last-IsDistinct "B" token_roles
