-- ===== src/ProcessNfts/Limit.antt =====
-- How often the NFTs of a target are processed.
use Prim.Native.Nat.{◌≤◌}
use mathlib.Core.Option.{some-injective}
use text.Mathlib.TextPositions.{eq_refl}
use api_elrond_com.Common.{
  ℕ, suc, ◌+◌, ◌-◌, ◌≡◌, refl, sym, ap, ◌∙◌, subst, String, Bool, true, false, ◌&&◌, none, some,
  List, [], ◌∷◌, Bool-cases, Option-cases, inl, inr, ltb, option_text_iff, option_eq, string_eq,
  ◌==◌, if◌then◌else◌, arith,
}
use api_elrond_com.ProcessNfts.State.{
  ProcessNftRequest, IsCounters, World, Env, Error, Result, ok, throws, throw,
}
use api_elrond_com.ProcessNfts.{
  target_of, thumbnails_key, increment_remote, process_as_owner, process_target,
  process_with_owner_check,
}
use api_elrond_com.ProcessNfts.Frame.{if-Keeps, process_as_owner-Keeps}

and_left : (a b : Bool) → (a && b) ≡ true → a ≡ true
and_left true b h = refl
and_left false b h = h

and_right : (a b : Bool) → (a && b) ≡ true → b ≡ true
and_right true b h = h
and_right false b h = cc

module _ {S O : Type 0} (env : Env S O) where
  abbrev pub is_ok : Result (List (String × Bool)) → Bool
  is_ok (ok x) = true
  is_ok (throws f) = false

  abbrev pub targets : String → ProcessNftRequest → Bool
  targets target r = target_of env r == some target

  -- How many of the requests for a target, one after the other, are processed.
  abbrev pub count_processed : String → List (String × ProcessNftRequest) → World S O → ℕ
  count_processed target [] w = 0
  count_processed target ((address, r) ∷ requests) w =
      let done = process_with_owner_check env address r w in
      (if targets target r && is_ok (done.0) then 1 else 0)
      + count_processed target requests (done.1)

  -- One request.
  abbrev count_of : String → World S O → ℕ
  count_of target w = env.counters.count (thumbnails_key env target) w.counters

  module _ (laws : IsCounters env.counters) where
    process_target-counters :
        (address target : String) (r : ProcessNftRequest) (w : World S O)
        → ((process_target env address target r w).1).counters
          ≡ (env.counters.increment (thumbnails_key env target) w.counters).1
    unfolding process_target increment_remote
    process_target-counters address target r w =
        if-Keeps (ltb 2 ((env.counters.increment (thumbnails_key env target) w.counters).0))
          (throw Error.already_generated) (process_as_owner env address target r) (λ v. refl)
          (process_as_owner-Keeps env address target r)
          (record w {
            counters = (env.counters.increment (thumbnails_key env target) w.counters).1;
          })

    process_target-count :
        (address target : String) (r : ProcessNftRequest) (other : String) (w : World S O)
        → count_of other w ≤ count_of other ((process_target env address target r w).1)
    process_target-count address target r other w =
        let now =
          ap (env.counters.count (thumbnails_key env other))
            (process_target-counters address target r w)
          ∙ laws.count-increment (thumbnails_key env other) (thumbnails_key env target)
              w.counters in
        ground (arith, now)

    process_target_over :
        (address target : String) (r : ProcessNftRequest) (w : World S O)
        → ltb 2 ((env.counters.increment (thumbnails_key env target) w.counters).0) ≡ true
        → (process_target env address target r w).0 ≡ throws Error.already_generated
    unfolding process_target increment_remote
    process_target_over address target r w over = rw (over, process_target, increment_remote) refl

    process_target-ok :
        (address target : String) (r : ProcessNftRequest) (w : World S O)
        → is_ok ((process_target env address target r w).0) ≡ true
        → (count_of target ((process_target env address target r w).1) ≡ suc (count_of target w))
          × (suc (count_of target w) ≤ 2)
    unfolding process_target increment_remote
    process_target-ok address target r w h =
        let now =
          ap (env.counters.count (thumbnails_key env target))
            (process_target-counters address target r w)
          ∙ laws.count-increment (thumbnails_key env target) (thumbnails_key env target)
              w.counters in
        let own = laws.incremented (thumbnails_key env target) w.counters in
        (
          now ∙ rw (eq_refl (thumbnails_key env target)) refl,
          elim (Bool-cases
              (ltb 2 ((env.counters.increment (thumbnails_key env target) w.counters).0))) [
                | inl over ↦ absurd (
                    let bad : false ≡ true =
                      sym (ap is_ok (process_target_over address target r w over)) ∙ h in
                    cc)
                | inr within ↦ ground (arith, own)
              ],
        )

    pub process_with_owner_check-target :
        (address target : String) (r : ProcessNftRequest) (w : World S O)
        → target_of env r ≡ some target
        → (target == "") ≡ false
        → process_with_owner_check env address r w ≡ process_target env address target r w
    unfolding process_with_owner_check
    process_with_owner_check-target address target r w named given =
        rw (named, given, process_with_owner_check) refl

    process_with_owner_check-none :
        (address : String) (r : ProcessNftRequest) (w : World S O)
        → target_of env r ≡ none
        → process_with_owner_check env address r w ≡ (throws Error.no_target, w)
    unfolding process_with_owner_check
    process_with_owner_check-none address r w named = rw (named, process_with_owner_check) refl

    process_with_owner_check_empty :
        (address target : String) (r : ProcessNftRequest) (w : World S O)
        → target_of env r ≡ some target
        → (target == "") ≡ true
        → process_with_owner_check env address r w ≡ (throws Error.no_target, w)
    unfolding process_with_owner_check
    process_with_owner_check_empty address target r w named given =
        rw (named, given, process_with_owner_check) refl

    abbrev IsCounted :
        String → ProcessNftRequest → World S O → Result (List (String × Bool)) × World S O → Type 0
    IsCounted target r w done =
        (count_of target w ≤ count_of target (done.1))
        × ((targets target r && is_ok (done.0)) ≡ true
            → (count_of target (done.1) ≡ suc (count_of target w)) × (suc (count_of target w) ≤ 2))

    refused-IsCounted :
        (target : String) (r : ProcessNftRequest) (w : World S O)
        → IsCounted target r w (throws Error.no_target, w)
    refused-IsCounted target r w = (omega arith, λ h. absurd (ground arith))

    process_target-IsCounted :
        (address target named : String) (r : ProcessNftRequest) (w : World S O)
        → target_of env r ≡ some named
        → IsCounted target r w (process_target env address named r w)
    process_target-IsCounted address target named r w e = (
      process_target-count address named r target w,
      λ h.
          let hit : target_of env r ≡ some target =
            (option_text_iff _ _).0
              (and_left (targets target r) (is_ok ((process_target env address named r w).0)) h) in
          let same : named ≡ target = some-injective named target (sym e ∙ hit) in
          let good : is_ok ((process_target env address named r w).0) ≡ true =
            and_right (targets target r) _ h in
          subst
            (λ t.
              (count_of t ((process_target env address named r w).1) ≡ suc (count_of t w))
              × (suc (count_of t w) ≤ 2))
            same (process_target-ok address named r w good),
    )

    one_request :
        (address target : String) (r : ProcessNftRequest) (w : World S O)
        → IsCounted target r w (process_with_owner_check env address r w)
    one_request address target r w = elim (Option-cases (target_of env r)) [
      | inl e ↦
          subst (IsCounted target r w) (sym (process_with_owner_check-none address r w e))
            (refused-IsCounted target r w)
      | inr (named, e) ↦ elim (Bool-cases (named == "")) [
        | inl empty ↦
            subst (IsCounted target r w)
              (sym (process_with_owner_check_empty address named r w e empty))
              (refused-IsCounted target r w)
        | inr given ↦
            subst (IsCounted target r w)
              (sym (process_with_owner_check-target address named r w e given))
              (process_target-IsCounted address target named r w e)
      ]
    ]

    -- Of any requests for one target, one after the other and in between requests for others, at most
    -- two are processed: fewer, where the counter of the target has been raised before. It is supposed
    -- that the cache counts, and that no counter expires.
    pub count_processed-le :
        (target : String) (requests : List (String × ProcessNftRequest)) (w : World S O)
        → count_processed target requests w
          ≤ 2 - env.counters.count (thumbnails_key env target) w.counters
    count_processed-le target [] w = omega arith
    count_processed-le target ((address, r) ∷ requests) w =
        let (grows, counted) = one_request address target r w in
        let later =
          count_processed-le target requests ((process_with_owner_check env address r w).1) in
        elim (Bool-cases
          (targets target r && is_ok ((process_with_owner_check env address r w).0))) [
            | inl hit ↦
                let (now, within) = counted hit in rw hit (omega (arith, later, now, within))
            | inr miss ↦ rw miss (omega (arith, later, grows))
          ]
