-- ===== src/CacheInfo/General.antt =====
-- The keys of the chain, the nodes and the processors, of src/utils/cache.info.ts. An argument is the text that it has in the key.
use api_elrond_com.Common.{String, ◌*◌, ◌+text◌, string_eq}
use api_elrond_com.CacheInfo.{CacheInfo, Durations}

module _ (durations : Durations) where
  abbrev pub about : CacheInfo
  about = record { key = "about"; ttl = durations.one_minute * 10 }

  abbrev pub last_processed_timestamp : CacheInfo
  last_processed_timestamp = record { key = "lastProcessedTimestamp"; ttl = durations.one_week * 2 }

  abbrev pub token_market_cap : CacheInfo
  token_market_cap = record { key = "tokenMarketCap"; ttl = durations.one_minute * 10 }

  abbrev pub nodes : CacheInfo
  nodes = record { key = "nodes"; ttl = durations.one_hour }

  abbrev pub num_shards : CacheInfo
  num_shards = record { key = "numShards"; ttl = durations.one_week }

  abbrev pub genesis_timestamp : CacheInfo
  genesis_timestamp = record { key = "genesisTimestamp"; ttl = durations.one_week }

  abbrev pub active_shards : CacheInfo
  active_shards = record { key = "shards"; ttl = durations.one_minute }

  abbrev pub all_esdt_tokens : CacheInfo
  all_esdt_tokens = record { key = "allEsdtTokens"; ttl = durations.one_hour }

  abbrev pub identities : CacheInfo
  identities = record { key = "identities"; ttl = durations.one_minute * 15 }

  abbrev pub providers : CacheInfo
  providers = record { key = "providers"; ttl = durations.one_hour }

  abbrev pub providers_with_stake_information : CacheInfo
  providers_with_stake_information = record {
    key = "providersWithStakeInformation";
    ttl = durations.one_hour;
  }

  abbrev pub keybases : CacheInfo
  keybases = record { key = "keybases"; ttl = durations.one_hour }

  abbrev pub keybase_confirmation : String → CacheInfo
  keybase_confirmation keybase = record {
    key = "keybase:" +text keybase;
    ttl = durations.one_month * 6;
  }

  abbrev pub tx_count : String → CacheInfo
  tx_count address = record { key = "txCount:" +text address; ttl = durations.one_second * 30 }

  abbrev pub identity_profiles_keybases : CacheInfo
  identity_profiles_keybases = record { key = "identityProfilesKeybases"; ttl = durations.one_hour }

  abbrev pub identity_profile : String → CacheInfo
  identity_profile key = record {
    key = "identityProfile:" +text key;
    ttl = durations.one_month * 6;
  }

  abbrev pub current_price : CacheInfo
  current_price = record { key = "currentPrice"; ttl = durations.one_hour }

  abbrev pub economics : CacheInfo
  economics = record { key = "economics"; ttl = durations.one_minute * 10 }

  abbrev pub top25_accounts : CacheInfo
  top25_accounts = record { key = "accounts:0:25"; ttl = durations.one_minute * 2 }

  abbrev pub shard_and_epoch_blses : String → String → CacheInfo
  shard_and_epoch_blses shard epoch = record {
    key = shard +text "_" +text epoch;
    ttl = durations.one_week;
  }

  abbrev pub owner_by_epoch_and_bls : String → String → CacheInfo
  owner_by_epoch_and_bls epoch bls = record {
    key = "owner:" +text epoch +text ":" +text bls;
    ttl = durations.one_day;
  }

  abbrev pub transaction_processor_shard_nonce : String → CacheInfo
  transaction_processor_shard_nonce shard = record {
    key = "shardNonce:" +text shard;
    ttl = 9_007_199_254_740_991;
  }

  abbrev pub transaction_completed_shard_nonce : String → CacheInfo
  transaction_completed_shard_nonce shard = record {
    key = "completedShardNonce:" +text shard;
    ttl = 9_007_199_254_740_991;
  }

  abbrev pub transaction_batch_shard_nonce : String → CacheInfo
  transaction_batch_shard_nonce shard = record {
    key = "batchShardNonce:" +text shard;
    ttl = 9_007_199_254_740_991;
  }
