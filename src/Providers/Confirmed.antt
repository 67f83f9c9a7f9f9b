-- ===== src/Providers/Confirmed.antt =====
-- Only a confirmed identity is shown.
use api_elrond_com.Common.{
  ◌≡◌, refl, sym, ap, ◌∙◌, String, Bool, true, false, Option, none, some, List, [], ◌∷◌, map,
  contains, string_eq, ◌==◌, eq_iff, Bool-cases, inl, inr, if◌then◌else◌, arith,
}
use api_elrond_com.Nodes.{KeybaseState}
use api_elrond_com.Providers.{
  Provider, Answers, find_provider, is_confirmed, clear_identity, clear_first, clear_unconfirmed,
  new_provider, get_all_providers_raw,
}

-- What the loop makes of the first provider with an address.
abbrev cleared : Bool → Option Provider → Option Provider
cleared keep none = none
cleared keep (some p) = some (if keep then p else clear_identity p)

find_provider-clear_first :
    (address key : String) (ps : List Provider)
    → find_provider key (clear_first address ps)
      ≡ (if address == key then cleared false (find_provider key ps) else find_provider key ps)
find_provider-clear_first address key [] = ground arith
find_provider-clear_first address key (p ∷ ps) = ground (
  arith,
  find_provider-clear_first address key ps,
  eq_iff p.provider address,
  eq_iff p.provider key,
  eq_iff address key,
)

cleared-true : (o : Option Provider) → cleared true o ≡ o
cleared-true none = refl
cleared-true (some p) = refl

cleared_twice : (c : Bool) (o : Option Provider) → cleared c (cleared c o) ≡ cleared c o
cleared_twice c none = refl
cleared_twice true (some p) = refl
cleared_twice false (some p) = refl

-- One step of the loop, at any address.
find_provider-step :
    (c : Bool) (address key : String) (ps : List Provider)
    → find_provider key (if c then ps else clear_first address ps)
      ≡ (if address == key then cleared c (find_provider key ps) else find_provider key ps)
find_provider-step true address key ps = elim (Bool-cases (address == key)) [
  | inl hit ↦ rw hit (sym (cleared-true (find_provider key ps)))
  | inr miss ↦ rw miss refl
]
find_provider-step false address key ps = find_provider-clear_first address key ps

find_provider-clear_unconfirmed :
    (keybases : String → Option KeybaseState) (key : String) (as_ : List String)
    (ps : List Provider)
    → find_provider key (clear_unconfirmed keybases as_ ps) ≡ (
        if contains as_ key
        then cleared (is_confirmed keybases key) (find_provider key ps)
        else find_provider key ps)
unfolding clear_unconfirmed
find_provider-clear_unconfirmed keybases key [] ps = refl
find_provider-clear_unconfirmed keybases key (a ∷ as_) ps =
    let c = is_confirmed keybases key in
    let o = find_provider key ps in
    find_provider-clear_unconfirmed keybases key as_
      (if is_confirmed keybases a then ps else clear_first a ps)
    ∙ ap (λ r. if contains as_ key then cleared c r else r)
        (find_provider-step (is_confirmed keybases a) a key ps)
    ∙ elim (Bool-cases (a == key)) [
      | inl hit ↦
          let same : a ≡ key = (eq_iff a key).0 hit in rw (hit, same) (merge (contains as_ key) c o)
      | inr miss ↦ rw (miss, contains) refl
    ]
  where
    merge :
        (b c : Bool) (o : Option Provider)
        → (if b then cleared c (cleared c o) else cleared c o) ≡ cleared c o
    merge true c o = cleared_twice c o
    merge false c o = refl

find_provider-new_provider :
    (answers : Answers) (key : String) (as_ : List String)
    → contains as_ key ≡ true
    → find_provider key (map (new_provider answers) as_) ≡ some (new_provider answers key)
find_provider-new_provider answers key [] h = cc
find_provider-new_provider answers key (a ∷ as_) h =
    ground (arith, find_provider-new_provider answers key as_, eq_iff a key)

-- Where the keybases are known, the provider at one of the addresses has the identity of its metadata if
-- the keybase confirms the address, and none otherwise.
pub get_all_providers_raw-confirmed :
    (answers : Answers) (keybases : String → Option KeybaseState) (addresses : List String)
    (address : String)
    → answers.keybases ≡ some keybases
    → contains addresses address ≡ true
    → (p : Provider) × (find_provider address (get_all_providers_raw answers addresses) ≡ some p)
      × (p.identity
          ≡ (if is_confirmed keybases address then answers.metadata_identity address else none))
unfolding get_all_providers_raw
get_all_providers_raw-confirmed answers keybases addresses address known among =
    let raw = map (new_provider answers) addresses in
    let c = is_confirmed keybases address in
    let p = new_provider answers address in
    (
      (if c then p else clear_identity p),
      rw (known, get_all_providers_raw)
          (find_provider-clear_unconfirmed keybases address addresses raw
            ∙ rw (among, find_provider-new_provider answers address addresses among) refl),
      identity_of c,
    )
  where
    identity_of :
        (c : Bool)
        → (if c
            then new_provider answers address
            else clear_identity (new_provider answers address)).identity
          ≡ (if c then answers.metadata_identity address else none)
    identity_of true = refl
    identity_of false = refl
