-- ===== src/Tokens/Answers.antt =====
-- The contract's answer on the roles of a token is read back.
use mathlib.Core.Bool.{or-false}
use api_elrond_com.Common.{
  ◌≡◌, refl, sym, ap, ◌∙◌, String, Option, Bool, true, false, none, some, List, [], ◌∷◌, ◌++◌, map,
  any, append_assoc, append-nil, All, is_truthy, ◌==◌, string_eq, ◌||◌, arith,
}
use api_elrond_com.Tokens.{
  TokenRoles, Binary, new_token_roles, set_token_role, close_current, read_roles,
  get_esdt_addresses_roles_raw,
}

-- An address and its roles, as the contract encodes them.
pub record Entry : Type 0 where
  pub key : String
  pub roles : List String

abbrev pub flatten : List Entry → List String
flatten [] = []
flatten (e ∷ entries) = e.key ∷ (e.roles ++ flatten entries)

same_fields :
    (r : TokenRoles) {address : Option String} {mint burn : Bool} {roles : List String}
    → r.address ≡ address
    → r.can_local_mint ≡ mint
    → r.can_local_burn ≡ burn
    → r.roles ≡ roles
    → r ≡ record { address = address; can_local_mint = mint; can_local_burn = burn; roles = roles }
same_fields r a m b s = rw (← a, ← m, ← b, ← s) refl

module _ (binary : Binary) where
  -- The key is an address, and no role is.
  abbrev pub IsEntry : Entry → Type 0
  IsEntry e =
      (is_truthy (binary.try_base64_to_address e.key) ≡ true)
      × All (λ v. is_truthy (binary.try_base64_to_address v) ≡ false) e.roles

  -- Some of the values stands for the role.
  abbrev pub stands_for : String → List String → Bool
  stands_for role values = any (λ v. binary.base64_decode v == role) values

  -- What is to be read: the decoded roles in order, and for two of them whether they are there.
  abbrev pub roles_of : Entry → TokenRoles
  roles_of e = record {
    address = binary.try_base64_to_address e.key;
    can_local_mint = stands_for "ESDTRoleLocalMint" e.roles;
    can_local_burn = stands_for "ESDTRoleLocalBurn" e.roles;
    roles = map binary.base64_decode e.roles;
  }

  -- The roles after a number of roles are set, in order.
  abbrev set_all : TokenRoles → List String → TokenRoles
  set_all r [] = r
  set_all r (v ∷ vs) = set_all (set_token_role r (binary.base64_decode v)) vs

  -- Setting a role over and over is the disjunction over all.
  set_all-mint :
      (r : TokenRoles) (vs : List String)
      → (set_all r vs).can_local_mint ≡ (stands_for "ESDTRoleLocalMint" vs || r.can_local_mint)
  unfolding set_token_role
  set_all-mint r [] = refl
  set_all-mint r (v ∷ vs) =
      ground (arith, set_all-mint (set_token_role r (binary.base64_decode v)) vs)

  set_all-burn :
      (r : TokenRoles) (vs : List String)
      → (set_all r vs).can_local_burn ≡ (stands_for "ESDTRoleLocalBurn" vs || r.can_local_burn)
  unfolding set_token_role
  set_all-burn r [] = refl
  set_all-burn r (v ∷ vs) =
      ground (arith, set_all-burn (set_token_role r (binary.base64_decode v)) vs)

  set_all-roles :
      (r : TokenRoles) (vs : List String)
      → (set_all r vs).roles ≡ r.roles ++ map binary.base64_decode vs
  unfolding set_token_role
  set_all-roles r [] = sym (append-nil r.roles)
  set_all-roles r (v ∷ vs) =
      set_all-roles (set_token_role r (binary.base64_decode v)) vs
      ∙ append_assoc r.roles (binary.base64_decode v ∷ []) (map binary.base64_decode vs)

  set_all-address : (r : TokenRoles) (vs : List String) → (set_all r vs).address ≡ r.address
  unfolding set_token_role
  set_all-address r [] = refl
  set_all-address r (v ∷ vs) = set_all-address (set_token_role r (binary.base64_decode v)) vs

  set_all-roles_of :
      (e : Entry)
      → set_all (new_token_roles (binary.try_base64_to_address e.key)) e.roles ≡ roles_of e
  set_all-roles_of e =
      let r = new_token_roles (binary.try_base64_to_address e.key) in
      same_fields (set_all r e.roles) (set_all-address r e.roles)
        (set_all-mint r e.roles ∙ or-false (stands_for "ESDTRoleLocalMint" e.roles))
        (set_all-burn r e.roles ∙ or-false (stands_for "ESDTRoleLocalBurn" e.roles))
        (set_all-roles r e.roles)

  read_roles-append :
      (vs rest : List String) (done : List TokenRoles) (r : TokenRoles)
      → All (λ v. is_truthy (binary.try_base64_to_address v) ≡ false) vs
      → read_roles binary done r (vs ++ rest) ≡ read_roles binary done (set_all r vs) rest
  unfolding read_roles
  read_roles-append [] rest done r h = refl
  read_roles-append (v ∷ vs) rest done r (no_address, h) =
      rw no_address (read_roles-append vs rest done (set_token_role r (binary.base64_decode v)) h)

  read_roles-flatten :
      (entries : List Entry) (done : List TokenRoles) (r : TokenRoles)
      → All IsEntry entries
      → read_roles binary done r (flatten entries)
        ≡ close_current binary done r ++ map roles_of entries
  unfolding read_roles
  read_roles-flatten [] done r h = sym (append-nil (close_current binary done r))
  read_roles-flatten (e ∷ entries) done r ((address, others), h) = rw address (
      read_roles-append e.roles (flatten entries) (close_current binary done r)
        (new_token_roles (binary.try_base64_to_address e.key)) others
      ∙ ap (λ x. read_roles binary (close_current binary done r) x (flatten entries))
          (set_all-roles_of e)
      ∙ read_roles-flatten entries (close_current binary done r) (roles_of e) h
      ∙ ap (λ xs. xs ++ map roles_of entries) (closed (close_current binary done r))
      ∙ append_assoc (close_current binary done r) (roles_of e ∷ []) (map roles_of entries))
    where
      closed : (xs : List TokenRoles) → close_current binary xs (roles_of e) ≡ xs ++ roles_of e ∷ []
      closed xs = rw (close_current, address) refl

  -- The answer for a list of addresses with their roles is read as one value an address, in order, with
  -- exactly its roles, decoded, and the flags of the two roles for local supply set where they are among
  -- them.
  pub get_esdt_addresses_roles_raw-flatten :
      (entries : List Entry)
      → All IsEntry entries
      → get_esdt_addresses_roles_raw binary (some (flatten entries)) ≡ map roles_of entries
  unfolding get_esdt_addresses_roles_raw
  get_esdt_addresses_roles_raw-flatten entries h =
      read_roles-flatten entries [] (new_token_roles none) h
