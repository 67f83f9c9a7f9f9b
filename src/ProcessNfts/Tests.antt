-- ===== src/ProcessNfts/Tests.antt =====
-- The properties of the processing, each at an input of its own.
use Prim.Native.Nat.{◌≤◌}
use api_elrond_com.Common.{
  ℕ, suc, ◌-◌, ◌≡◌, refl, ◌↔◌, String, false, none, some, List, [], ◌∷◌, split, string_eq, ◌==◌,
  if◌then◌else◌, arith,
}
use api_elrond_com.Batch.World.{Cache}
use api_elrond_com.ProcessNfts.State.{
  ProcessNftRequest, from_request, Nft, Counters, IsCounters, World, Env, ok,
}
use api_elrond_com.ProcessNfts.{
  thumbnails_key, follow_owners, process_collection, process_with_owner_check,
  get_collection_non_sc_owner_raw,
}
use api_elrond_com.ProcessNfts.Owner.{Reaches, follow_owners_iff}
use api_elrond_com.ProcessNfts.Limit.{count_processed, count_processed-le}
use api_elrond_com.ProcessNfts.Unchecked.{process_with_owner_check_unchecked}

-- Counters as a function, and a cache of owners that keeps nothing.
abbrev counters : Counters (String → ℕ)
counters = record {
  count = λ k s. s k;
  increment = λ k s. (suc (s k), λ j. if k == j then suc (s j) else s j);
}

counters-IsCounters : IsCounters counters
counters-IsCounters = record { incremented = λ k s. refl; count-increment = λ j k s. refl }

abbrev no_cache : Cache (Unit {0}) String
no_cache = record { get = λ k s. none; set = λ k v s. s; delete = λ k s. s; keys = λ k s. [] }

abbrev nft : String → Nft
nft identifier = record { identifier = identifier; is_meta_esdt = false }

-- Two collections: the one of ann, by way of a contract, and the one of bob.
abbrev env : Env (String → ℕ) (Unit {0})
env = record {
  counters = counters;
  owners = no_cache;
  collection_owner = λ c. if c == "ANN-1" then some (some "contract") else some (some "bob");
  account_owner = λ a. if a == "contract" then some "ann" else none;
  is_smart_contract_address = λ a. a == "contract";
  get_nfts = λ c. nft "BOB-2-01" ∷ [];
  get_single_nft = λ i. some (nft i);
  has_metadata = λ i. false;
  media_of = λ i. none;
  stored_media = λ i. none;
  has_thumbnail_generated = λ i url. false;
  is_asset_uploaded = λ item. false;
}

abbrev start : World (String → ℕ) (Unit {0})
start = record { counters = λ k. 0; owners = tt; sent = [] }

abbrev both : ProcessNftRequest
both = record {
  collection = some "BOB-2";
  identifier = some "ANN-1-01";
  force_refresh_media = none;
  force_refresh_metadata = none;
  force_refresh_thumbnail = none;
  skip_refresh_thumbnail = none;
  upload_asset = none;
}

follow_owners_iff_example :
    (follow_owners env 10 "contract" ≡ ok "ann") ↔ Reaches env 10 "contract" "ann"
follow_owners_iff_example = follow_owners_iff env 10 "contract" "ann"

follow_owners_read : follow_owners env 10 "contract" ≡ ok "ann"
unfolding follow_owners
follow_owners_read = refl

abbrev thrice : List (String × ProcessNftRequest)
thrice = ("ann", both) ∷ ("ann", both) ∷ ("ann", both) ∷ []

count_processed-le_example : count_processed env "ANN-1-01" thrice start ≤ 2 - 0
count_processed-le_example = count_processed-le env counters-IsCounters "ANN-1-01" thrice start

process_with_owner_check_unchecked_example :
    process_with_owner_check env "ann" both start
    ≡ process_collection env "BOB-2" (from_request both) (record start {
      counters = (counters.increment (thumbnails_key env "ANN-1-01") start.counters).1;
    })
unfolding get_collection_non_sc_owner_raw split
process_with_owner_check_unchecked_example =
    process_with_owner_check_unchecked env counters-IsCounters "ann" "ANN-1-01" "BOB-2" both start
      refl refl refl refl (omega arith) refl refl
