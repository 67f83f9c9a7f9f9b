-- ===== src/ProcessNfts.antt =====
-- The processing of NFTs that an owner asks for: src/endpoints/process-nfts/process.nfts.service.ts, and
-- src/queue.worker/nft.worker/nft.worker.service.ts, which sends the jobs.
pub mod State
pub mod Owner
pub mod Frame
pub mod Limit
pub mod Unchecked
mod Tests
use api_elrond_com.Common.{
  ℕ, zero, suc, ◌+◌, ◌≡◌, String, Bool, true, false, not, ◌&&◌, ◌||◌, Option, none, some, List, [],
  ◌∷◌, ◌++◌, any, take, split, join, is_truthy, ltb, option_eq, string_eq, ◌==◌, ◌+text◌,
  if◌then◌else◌,
}
use api_elrond_com.Batch.World.{Cache}
use api_elrond_com.ProcessNfts.State.{
  ProcessNftRequest, ProcessNftSettings, or_no, from_request, Nft, Counters, IsCounters, NftMessage,
  World, Env, Error, Result, M, pure, throw, ◌>>=◌, ok, throws,
}

abbrev pub max_depth : ℕ
max_depth = 10

abbrev pub maximum_process_retries : ℕ
maximum_process_retries = 2

abbrev pub media_or_none : Option (List String) → List String
media_or_none none = []
media_or_none (some media) = media

module _ {S O : Type 0} (env : Env S O) where
  unfoldable pub needs_processing : Nft → ProcessNftSettings → Bool
  needs_processing nft s =
      if nft.is_meta_esdt
      then false
      else if s.force_refresh_media || (s.force_refresh_metadata || s.force_refresh_thumbnail)
      then true
      else (elim (env.stored_media nft.identifier) [
        | none ↦ true
        | some stored ↦
            if not (env.has_metadata nft.identifier)
            then true
            else if not s.skip_refresh_thumbnail
                && any (λ url. not (env.has_thumbnail_generated nft.identifier url))
                    (media_or_none (env.media_of nft.identifier))
            then true
            else s.upload_asset && any (λ item. not (env.is_asset_uploaded item)) stored
      ])

  unfoldable pub add_process_nft_queue_job : Nft → ProcessNftSettings → M S O Bool
  unfolding needs_processing
  add_process_nft_queue_job nft s w = if not (needs_processing nft s) then (ok false, w) else (
    ok true,
    record w { sent = w.sent ++ record { identifier = nft.identifier; settings = s } ∷ [] },
  )

  -- The jobs of a pool, in the order in which they are started, and their results by identifier.
  unfoldable pub add_jobs : List Nft → ProcessNftSettings → M S O (List (String × Bool))
  unfolding add_process_nft_queue_job
  add_jobs [] s = pure []
  add_jobs (nft ∷ nfts) s = do
    added ← add_process_nft_queue_job nft s
    others ← add_jobs nfts s
    pure ((nft.identifier, added) ∷ others)

  unfoldable pub process_collection : String → ProcessNftSettings → M S O (List (String × Bool))
  unfolding add_jobs
  process_collection collection s = add_jobs (env.get_nfts collection) s

  unfoldable pub process_nft : String → ProcessNftSettings → M S O Bool
  unfolding add_process_nft_queue_job
  process_nft identifier s = elim (env.get_single_nft identifier) [
    | none ↦ pure false
    | some nft ↦ add_process_nft_queue_job nft s
  ]

  abbrev pub process_identifier : Option String → ProcessNftSettings → M S O (List (String × Bool))
  process_identifier none s = throw Error.no_target
  process_identifier (some identifier) s =
      if identifier == ""
      then throw Error.no_target
      else (do processed ← process_nft identifier s; pure ((identifier, processed) ∷ []))

  -- The collection, if one is given, whatever the identifier is.
  unfoldable pub process : ProcessNftRequest → M S O (List (String × Bool))
  unfolding from_request process_collection process_nft
  process r = elim (r.collection) [
    | none ↦ process_identifier r.identifier (from_request r)
    | some collection ↦
        if collection == ""
        then process_identifier r.identifier (from_request r)
        else process_collection collection (from_request r)
  ]

  -- The loop up the owners of contracts, with `depth` rounds to go.
  unfoldable pub follow_owners : ℕ → String → Result String
  follow_owners zero owner =
      if env.is_smart_contract_address owner then throws Error.owner_is_contract else ok owner
  follow_owners (suc depth) owner =
      if env.is_smart_contract_address owner
      then (elim (env.account_owner owner) [
        | none ↦ throws Error.no_account
        | some next ↦ follow_owners depth next
      ])
      else ok owner

  unfoldable pub get_collection_non_sc_owner_raw : String → Result String
  unfolding follow_owners
  get_collection_non_sc_owner_raw collection = elim (env.collection_owner collection) [
    | none ↦ throws Error.no_collection
    | some found ↦ elim found [
      | none ↦ throws Error.no_owner
      | some owner ↦ if owner == "" then throws Error.no_owner else follow_owners max_depth owner
    ]
  ]

  abbrev pub owner_key : String → String
  owner_key collection = "collectionNonScOwner:" +text collection

  -- `getOrSetCache`: what the cache has, or what is computed and then stored.
  unfoldable pub get_collection_non_sc_owner : String → M S O String
  unfolding get_collection_non_sc_owner_raw
  get_collection_non_sc_owner collection w = elim (env.owners.get (owner_key collection) w.owners) [
    | some owner ↦ (ok owner, w)
    | none ↦ elim (get_collection_non_sc_owner_raw collection) [
      | throws e ↦ (throws e, w)
      | ok owner ↦
          (ok owner, record w { owners = env.owners.set (owner_key collection) owner w.owners })
    ]
  ]

  -- `identifier ?? collection`
  abbrev pub target_of : ProcessNftRequest → Option String
  target_of r = elim (r.identifier) [ some identifier ↦ some identifier | none ↦ r.collection ]

  -- 45 is `-`.
  abbrev pub collection_of : String → String
  collection_of target = join "-" (take 2 (split 45 target))

  abbrev pub thumbnails_key : String → String
  thumbnails_key target = "generateThumbnails:" +text target

  unfoldable pub increment_remote : String → M S O ℕ
  increment_remote target w =
      let r = env.counters.increment (thumbnails_key target) w.counters in
      (ok (r.0), record w { counters = r.1 })

  -- After the check of the count.
  unfoldable pub process_as_owner :
      String → String → ProcessNftRequest → M S O (List (String × Bool))
  unfolding get_collection_non_sc_owner process
  process_as_owner address target r = do
    owner ← get_collection_non_sc_owner (collection_of target)
    if address == owner then process r else throw Error.not_owner

  unfoldable pub process_target : String → String → ProcessNftRequest → M S O (List (String × Bool))
  unfolding increment_remote process_as_owner
  process_target address target r = do
    retries ← increment_remote target
    if ltb maximum_process_retries retries
        then throw Error.already_generated
        else process_as_owner address target r

  unfoldable pub process_with_owner_check :
      String → ProcessNftRequest → M S O (List (String × Bool))
  unfolding process_target
  process_with_owner_check address r = elim (target_of r) [
    | none ↦ throw Error.no_target
    | some target ↦ if target == "" then throw Error.no_target else process_target address target r
  ]
