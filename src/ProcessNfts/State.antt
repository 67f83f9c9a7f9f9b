-- ===== src/ProcessNfts/State.antt =====
-- What the processing of NFTs acts on: the requests, the counters, the cache of owners, the messages that
-- are sent, and what the other services answer; and the monad of its operations.
use api_elrond_com.Common.{
  ℕ, suc, ◌≡◌, String, Bool, false, Option, none, some, List, option_eq, string_eq, ◌==◌,
  if◌then◌else◌,
}
use api_elrond_com.Batch.World.{Cache}

pub record ProcessNftRequest : Type 0 where
  pub collection : Option String
  pub identifier : Option String
  pub force_refresh_media : Option Bool
  pub force_refresh_metadata : Option Bool
  pub force_refresh_thumbnail : Option Bool
  pub skip_refresh_thumbnail : Option Bool
  pub upload_asset : Option Bool

pub record ProcessNftSettings : Type 0 where
  pub force_refresh_media : Bool
  pub force_refresh_metadata : Bool
  pub force_refresh_thumbnail : Bool
  pub skip_refresh_thumbnail : Bool
  pub upload_asset : Bool

abbrev pub or_no : Option Bool → Bool
or_no none = false
or_no (some b) = b

unfoldable pub from_request : ProcessNftRequest → ProcessNftSettings
from_request r = record {
  force_refresh_media = or_no r.force_refresh_media;
  force_refresh_metadata = or_no r.force_refresh_metadata;
  force_refresh_thumbnail = or_no r.force_refresh_thumbnail;
  skip_refresh_thumbnail = or_no r.skip_refresh_thumbnail;
  upload_asset = or_no r.upload_asset;
}

pub record Nft : Type 0 where
  pub identifier : String
  pub is_meta_esdt : Bool

-- The counters of the remote cache: `incrementRemote` gives the count after it.
pub record Counters (S : Type 0) : Type 0 where
  pub count : String → S → ℕ
  pub increment : String → S → ℕ × S

pub record IsCounters {S : Type 0} (c : Counters S) : Type 0 where
  pub incremented : (k : String) (s : S) → (c.increment k s).0 ≡ suc (c.count k s)
  pub count-increment :
      (j k : String) (s : S)
      → c.count j ((c.increment k s).1) ≡ (if k == j then suc (c.count j s) else c.count j s)

-- A message of the queue worker.
pub record NftMessage : Type 0 where
  pub identifier : String
  pub settings : ProcessNftSettings

pub record World (S O : Type 0) : Type 0 where
  pub counters : S
  pub owners : O
  -- The messages that were sent, first things first.
  pub sent : List NftMessage

-- What the other services answer: the owner of a collection (`none` where there is no such collection),
-- the owner of an account (`none` where it cannot be fetched), the NFTs, and what is stored for one.
pub record Env (S O : Type 0) : Type 0 where
  pub counters : Counters S
  pub owners : Cache O String
  pub collection_owner : String → Option (Option String)
  pub account_owner : String → Option String
  pub is_smart_contract_address : String → Bool
  pub get_nfts : String → List Nft
  pub get_single_nft : String → Option Nft
  pub has_metadata : String → Bool
  pub media_of : String → Option (List String)
  pub stored_media : String → Option (List String)
  pub has_thumbnail_generated : String → String → Bool
  pub is_asset_uploaded : String → Bool

pub data Error : Type 0 where
  no_target already_generated not_owner no_collection no_owner no_account owner_is_contract : Error

pub data Result (A : Type 0) : Type 0 where
  ok : A → Result A
  throws : Error → Result A

abbrev pub M : Type 0 → Type 0 → Type 0 → Type 0
M S O A = World S O → Result A × World S O

module _ {S O : Type 0} where
  abbrev pub pure : {A : Type 0} → A → M S O A
  pure a w = (ok a, w)

  abbrev pub throw : {A : Type 0} → Error → M S O A
  throw e w = (throws e, w)

  infixl 5 ◌>>=◌
  abbrev pub ◌>>=◌ : {A C : Type 0} → M S O A → (A → M S O C) → M S O C
  ◌>>=◌ m k w = let r = m w in elim (r.0) [ ok a ↦ k a (r.1) | throws e ↦ (throws e, r.1) ]
