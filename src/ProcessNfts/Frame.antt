-- ===== src/ProcessNfts/Frame.antt =====
-- What the operations leave as it is: only the check of an owner counts.
use api_elrond_com.Common.{
  ◌≡◌, refl, ap, ◌∙◌, String, Bool, true, false, Option, none, some, List, [], ◌∷◌, ◌⊎◌, Bool-cases,
  Option-cases, inl, inr, option_eq, string_eq, ◌==◌, if◌then◌else◌,
}
use api_elrond_com.ProcessNfts.State.{
  ProcessNftRequest, ProcessNftSettings, from_request, Nft, World, Env, Error, Result, ok, throws,
  M, pure, throw, ◌>>=◌,
}
use api_elrond_com.ProcessNfts.{
  needs_processing, add_process_nft_queue_job, add_jobs, process_collection, process_nft,
  process_identifier, process, get_collection_non_sc_owner, get_collection_non_sc_owner_raw,
  owner_key, collection_of, process_as_owner,
}

-- The operation leaves the counters.
abbrev pub Keeps : {S O A : Type 0} → M S O A → Type 0
Keeps {S} {O} m = (w : World S O) → ((m w).1).counters ≡ w.counters

module _ {S O : Type 0} where
  pub bind_ok :
      {A C : Type 0} (m : M S O A) (k : A → M S O C) (w : World S O) {a : A} {w' : World S O}
      → m w ≡ (ok a, w')
      → (m >>= k) w ≡ k a w'
  bind_ok {A} {C} m k w e =
      ap
        (λ (r : Result A × World S O). elim (r.0) as (λ x. Result C × World S O) [
          | ok a ↦ k a (r.1)
          | throws f ↦ (throws f, r.1)
        ])
        e

  bind_throws :
      {A C : Type 0} (m : M S O A) (k : A → M S O C) (w : World S O) {f : Error} {w' : World S O}
      → m w ≡ (throws f, w')
      → (m >>= k) w ≡ (throws f, w')
  bind_throws {A} {C} m k w e =
      ap
        (λ (r : Result A × World S O). elim (r.0) as (λ x. Result C × World S O) [
          | ok a ↦ k a (r.1)
          | throws g ↦ (throws g, r.1)
        ])
        e

  bind-Keeps :
      {A C : Type 0} (m : M S O A) (k : A → M S O C)
      → Keeps m
      → ((a : A) → Keeps (k a))
      → Keeps (m >>= k)
  bind-Keeps {A} {C} m k keeps_m keeps_k w = go (m w) (keeps_m w)
    where
      go :
          (r : Result A × World S O)
          → ((r.1).counters ≡ w.counters)
          → ((elim (r.0) as (λ x. Result C × World S O) [
            | ok a ↦ k a (r.1)
            | throws f ↦ (throws f, r.1)
          ]).1
            ).counters
            ≡ w.counters
      go (ok a, w') e = keeps_k a w' ∙ e
      go (throws f, w') e = e

pub if-Keeps :
    {S O A : Type 0} (b : Bool) (m k : M S O A) → Keeps m → Keeps k → Keeps (if b then m else k)
if-Keeps true m k keeps_m keeps_k = keeps_m
if-Keeps false m k keeps_m keeps_k = keeps_k

pub Result-cases :
    {A : Type 0} (r : Result A) → ((f : Error) × (r ≡ throws f)) ⊎ ((a : A) × (r ≡ ok a))
Result-cases (throws f) = inl (f, refl)
Result-cases (ok a) = inr (a, refl)

module _ {S O : Type 0} (env : Env S O) where
  add_process_nft_queue_job-Keeps :
      (nft : Nft) (s : ProcessNftSettings) → Keeps (add_process_nft_queue_job env nft s)
  unfolding add_process_nft_queue_job
  add_process_nft_queue_job-Keeps nft s w = elim (Bool-cases (needs_processing env nft s)) [
    | inl needed ↦ rw (needed, add_process_nft_queue_job) refl
    | inr done ↦ rw (done, add_process_nft_queue_job) refl
  ]

  add_jobs-Keeps : (nfts : List Nft) (s : ProcessNftSettings) → Keeps (add_jobs env nfts s)
  unfolding add_jobs
  add_jobs-Keeps [] s = λ w. refl
  add_jobs-Keeps (nft ∷ nfts) s =
      bind-Keeps (add_process_nft_queue_job env nft s)
        (λ added. add_jobs env nfts s >>= λ others. pure ((nft.identifier, added) ∷ others))
        (add_process_nft_queue_job-Keeps nft s)
        (λ added.
          bind-Keeps (add_jobs env nfts s) (λ others. pure ((nft.identifier, added) ∷ others))
            (add_jobs-Keeps nfts s) (λ others w. refl))

  process_nft-Keeps :
      (identifier : String) (s : ProcessNftSettings) → Keeps (process_nft env identifier s)
  unfolding process_nft
  process_nft-Keeps identifier s w = elim (Option-cases (env.get_single_nft identifier)) [
    | inl missing ↦ rw (missing, process_nft) refl
    | inr (nft, there) ↦ rw (there, process_nft) (add_process_nft_queue_job-Keeps nft s w)
  ]

  process_identifier-Keeps :
      (identifier : Option String) (s : ProcessNftSettings)
      → Keeps (process_identifier env identifier s)
  process_identifier-Keeps none s = λ w. refl
  process_identifier-Keeps (some identifier) s =
      if-Keeps (identifier == "") (throw Error.no_target) _ (λ w. refl)
        (bind-Keeps (process_nft env identifier s)
          (λ processed. pure ((identifier, processed) ∷ [])) (process_nft-Keeps identifier s)
          (λ processed w. refl))

  process-Keeps : (r : ProcessNftRequest) → Keeps (process env r)
  unfolding process process_collection
  process-Keeps r w = elim (Option-cases (r.collection)) [
    | inl missing ↦ rw (missing, process) (process_identifier-Keeps r.identifier (from_request r) w)
    | inr (collection, there) ↦
        rw (there, process)
          (if-Keeps (collection == "") (process_identifier env r.identifier (from_request r))
            (process_collection env collection (from_request r))
            (process_identifier-Keeps r.identifier (from_request r))
            (add_jobs-Keeps (env.get_nfts collection) (from_request r)) w)
  ]

  get_collection_non_sc_owner-Keeps :
      (collection : String) → Keeps (get_collection_non_sc_owner env collection)
  unfolding get_collection_non_sc_owner
  get_collection_non_sc_owner-Keeps collection w =
      elim (Option-cases (env.owners.get (owner_key env collection) w.owners)) [
        | inr (owner, cached) ↦ rw (cached, get_collection_non_sc_owner) refl
        | inl missing ↦ elim (Result-cases (get_collection_non_sc_owner_raw env collection)) [
          | inl (f, failed) ↦ rw (missing, failed, get_collection_non_sc_owner) refl
          | inr (owner, found) ↦ rw (missing, found, get_collection_non_sc_owner) refl
        ]
      ]

  pub process_as_owner-Keeps :
      (address target : String) (r : ProcessNftRequest)
      → Keeps (process_as_owner env address target r)
  unfolding process_as_owner
  process_as_owner-Keeps address target r =
      bind-Keeps (get_collection_non_sc_owner env (collection_of env target))
        (λ owner. if address == owner then process env r else throw Error.not_owner)
        (get_collection_non_sc_owner-Keeps (collection_of env target))
        (λ owner.
          if-Keeps (address == owner) (process env r) (throw Error.not_owner) (process-Keeps r)
            (λ w. refl))
