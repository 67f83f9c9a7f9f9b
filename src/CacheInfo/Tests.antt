-- ===== src/CacheInfo/Tests.antt =====
-- Keys read back, and the property at an input of its own.
use api_elrond_com.Common.{◌≡◌, refl, String, some}
use api_elrond_com.CacheInfo.{Durations}
use api_elrond_com.CacheInfo.Entry.{Entry, info_of}
use api_elrond_com.CacheInfo.Reading.{read_key}
use api_elrond_com.Batch.World.{transaction_batch_key, pending_transaction_key}

abbrev durations : Durations
durations = record {
  one_second = 1;
  one_minute = 60;
  one_hour = 3600;
  one_day = 86400;
  one_week = 604800;
  one_month = 2592000;
}

media_read : read_key "nftMediaProperties:https://a" ≡ some (Entry.nft_media_properties "https://a")
unfolding read_key
media_read = refl

-- The keys of the batch services are those of the class.
batch_keys :
    (sender batch_id hash : String)
    → ((info_of durations "" (Entry.transaction_batch sender batch_id)).key
        ≡ transaction_batch_key sender batch_id)
      × ((info_of durations "" (Entry.pending_transaction hash)).key ≡ pending_transaction_key hash)
batch_keys sender batch_id hash = (refl, refl)
