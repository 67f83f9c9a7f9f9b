-- ===== src/CacheInfo/Tokens.antt =====
-- The keys of tokens, collections and the exchange, of src/utils/cache.info.ts. An argument is the text that it has in the key.
use api_elrond_com.Common.{String, ◌*◌, ◌+text◌, string_eq, ◌==◌, if◌then◌else◌}
use api_elrond_com.CacheInfo.{CacheInfo, Durations}

module _ (durations : Durations) where
  abbrev pub token_assets : CacheInfo
  token_assets = record { key = "tokenAssets"; ttl = durations.one_day }

  abbrev pub collection_ranks : CacheInfo
  collection_ranks = record { key = "collectionRanks"; ttl = durations.one_day }

  abbrev pub account_assets : CacheInfo
  account_assets = record { key = "accountLabels"; ttl = durations.one_day }

  abbrev pub mex_settings : CacheInfo
  mex_settings = record { key = "mex:settings"; ttl = durations.one_hour }

  abbrev pub mex_contracts : CacheInfo
  mex_contracts = record { key = "mex:contracts"; ttl = durations.one_hour }

  abbrev pub token_transfer_properties : String → CacheInfo
  token_transfer_properties identifier = record {
    key = "token:transfer:properties:v2:" +text identifier;
    ttl = durations.one_hour;
  }

  abbrev pub esdt_properties : String → CacheInfo
  esdt_properties identifier = record { key = "esdt:" +text identifier; ttl = durations.one_day }

  abbrev pub esdt_addresses_roles : String → CacheInfo
  esdt_addresses_roles identifier = record {
    key = "esdt:roles:" +text identifier;
    ttl = durations.one_day;
  }

  abbrev pub esdt_assets : String → CacheInfo
  esdt_assets identifier = record {
    key = "esdt:assets:" +text identifier;
    ttl = durations.one_hour;
  }

  -- Today's price is kept for a shorter time.
  abbrev pub historical_price : String → String → String → CacheInfo
  historical_price today identifier date = record {
    key = "historical-price:" +text identifier +text ":" +text date;
    ttl = if date == today then durations.one_minute * 5 else durations.one_week;
  }

  abbrev pub nft_metadata : String → CacheInfo
  nft_metadata identifier = record {
    key = "nftMetadata:" +text identifier;
    ttl = durations.one_minute * 10;
  }

  abbrev pub nft_media : String → CacheInfo
  nft_media identifier = record {
    key = "nftMedia:" +text identifier;
    ttl = durations.one_minute * 10;
  }

  abbrev pub nft_media_properties : String → CacheInfo
  nft_media_properties uri = record {
    key = "nftMediaProperties:" +text uri;
    ttl = durations.one_hour;
  }

  abbrev pub token_locked_accounts : String → CacheInfo
  token_locked_accounts identifier = record {
    key = "tokenLockedAccounts:" +text identifier;
    ttl = durations.one_hour;
  }

  abbrev pub token_supply : String → CacheInfo
  token_supply identifier = record {
    key = "tokenSupply:" +text identifier;
    ttl = durations.one_hour;
  }

  abbrev pub token_transactions : String → CacheInfo
  token_transactions identifier = record {
    key = "tokenTransactions:" +text identifier;
    ttl = durations.one_minute * 10;
  }

  abbrev pub token_accounts : String → CacheInfo
  token_accounts identifier = record {
    key = "tokenAccounts:" +text identifier;
    ttl = durations.one_minute * 10;
  }

  abbrev pub token_accounts_extra : String → CacheInfo
  token_accounts_extra identifier = record {
    key = "tokenAccountsExtra:" +text identifier;
    ttl = durations.one_hour;
  }

  abbrev pub transaction_pending_results : String → CacheInfo
  transaction_pending_results hash = record {
    key = "transaction:pendingresults:" +text hash;
    ttl = durations.one_minute * 20;
  }

  abbrev pub stake_topup : String → CacheInfo
  stake_topup address = record {
    key = "stakeTopup:" +text address;
    ttl = durations.one_minute * 15;
  }

  abbrev pub collection_type : String → CacheInfo
  collection_type collection_identifier = record {
    key = "collectionType:" +text collection_identifier;
    ttl = durations.one_minute * 10;
  }

  abbrev pub mex_economics : CacheInfo
  mex_economics = record { key = "mexEconomics"; ttl = durations.one_minute * 10 }

  abbrev pub mex_pairs : CacheInfo
  mex_pairs = record { key = "mexPairs"; ttl = durations.one_minute * 10 }

  abbrev pub mex_tokens : CacheInfo
  mex_tokens = record { key = "mexTokens"; ttl = durations.one_minute * 10 }

  abbrev pub mex_farms : CacheInfo
  mex_farms = record { key = "mexFarms"; ttl = durations.one_minute * 10 }

  abbrev pub staking_proxies : CacheInfo
  staking_proxies = record { key = "mexStakingProxies"; ttl = durations.one_minute * 10 }

  abbrev pub mex_tokens_indexed : CacheInfo
  mex_tokens_indexed = record { key = "mexTokensIndexed"; ttl = durations.one_minute * 10 }

  abbrev pub mex_prices : CacheInfo
  mex_prices = record { key = "mexPrices"; ttl = durations.one_minute * 10 }
