-- ===== src/Tokens/Elastic.antt =====
-- The two readings of the indexer's roles agree.
use api_elrond_com.Common.{
  ◌≡◌, ◌↔◌, refl, sym, ap, ◌∙◌, String, Bool, true, false, ◌||◌, Option, none, some, List, [], ◌∷◌,
  contains, IsDistinct, option_eq, string_eq, ◌==◌, eq_iff, Bool-cases, inl, inr, if◌then◌else◌,
  arith,
}
use api_elrond_com.Tokens.{
  TokenRoles, new_token_roles, set_token_role, find_roles, or_new, add_address, add_addresses,
  add_roles, set_roles_of, get_token_roles_from_elastic, get_token_roles_for_address,
}

-- The address has a role.
abbrev pub has_role : (List String → List String) → String → List (String × List String) → Bool
has_role distinct address [] = false
has_role distinct address ((role, addresses) ∷ rest) =
    contains (distinct addresses) address || has_role distinct address rest

set_token_role-address :
    (r : TokenRoles) (role : String) → (set_token_role r role).address ≡ r.address
unfolding set_token_role
set_token_role-address r role = refl

is_address : (x : Option String) (a : String) → ((x == some a) ≡ true) ↔ (x ≡ some a)
is_address x a = option_eq.is_same_iff x (some a)

find_roles-add_address :
    (role address key : String) (roles : List TokenRoles)
    → find_roles key (add_address role address roles) ≡ (
        if address == key
        then some (set_token_role (or_new key (find_roles key roles)) role)
        else find_roles key roles)
unfolding add_address
find_roles-add_address role address key [] =
    ground (arith, set_token_role-address (new_token_roles (some address)) role, eq_iff address key)
find_roles-add_address role address key (r ∷ roles) = ground (
  arith,
  find_roles-add_address role address key roles,
  set_token_role-address r role,
  is_address r.address address,
  is_address r.address key,
  eq_iff address key,
)

find_roles-add_addresses :
    (role key : String) (addresses : List String) (roles : List TokenRoles)
    → IsDistinct addresses
    → find_roles key (add_addresses role addresses roles) ≡ (
        if contains addresses key
        then some (set_token_role (or_new key (find_roles key roles)) role)
        else find_roles key roles)
unfolding add_addresses
find_roles-add_addresses role key [] roles h = refl
find_roles-add_addresses role key (a ∷ addresses) roles (fresh, h) = ground (
  arith,
  find_roles-add_addresses role key addresses (add_address role a roles) h,
  find_roles-add_address role a key roles,
  eq_iff a key,
)

set_roles_of_absent :
    (distinct : List String → List String) (key : String) (rest : List (String × List String))
    (r : TokenRoles)
    → has_role distinct key rest ≡ false
    → set_roles_of distinct key rest r ≡ r
unfolding set_roles_of
set_roles_of_absent distinct key [] r h = refl
set_roles_of_absent distinct key ((role, addresses) ∷ rest) r h =
    elim (Bool-cases (contains (distinct addresses) key)) [
      | inl hit ↦ absurd (ground (arith, hit, h))
      | inr miss ↦ rw miss (set_roles_of_absent distinct key rest r (ground (arith, miss, h)))
    ]

module _ (distinct : List String → List String)
    (distinct_law : (xs : List String) → IsDistinct (distinct xs)) where
  find_roles-add_roles :
      (key : String) (token_roles : List (String × List String)) (roles : List TokenRoles)
      → find_roles key (add_roles distinct token_roles roles) ≡ (
          if has_role distinct key token_roles
          then some (set_roles_of distinct key token_roles (or_new key (find_roles key roles)))
          else find_roles key roles)
  unfolding add_roles set_roles_of
  find_roles-add_roles key [] roles = refl
  find_roles-add_roles key ((role, addresses) ∷ rest) roles =
      find_roles-add_roles key rest (add_addresses role (distinct addresses) roles)
      ∙ rw (find_roles-add_addresses role key (distinct addresses) roles (distinct_law addresses))
          (elim (Bool-cases (contains (distinct addresses) key)) [
            | inl hit ↦
                rw (hit, has_role)
                  (elim (Bool-cases (has_role distinct key rest)) [
                    | inl more ↦ rw more refl
                    | inr last ↦
                        rw last (ap some (sym (set_roles_of_absent distinct key rest _ last)))
                  ])
            | inr miss ↦ rw (miss, has_role) refl
          ])

  -- Where `distinct` leaves no text twice, the roles that the list of all roles has for an address are
  -- those of the query for this address, and the list has some exactly if the address has a role.
  pub get_token_roles-agree :
      (address : String) (token_roles : List (String × List String))
      → find_roles address (get_token_roles_from_elastic distinct token_roles) ≡ (
          if has_role distinct address token_roles
          then some (get_token_roles_for_address distinct address token_roles)
          else none)
  unfolding get_token_roles_from_elastic get_token_roles_for_address
  get_token_roles-agree address token_roles = find_roles-add_roles address token_roles []
