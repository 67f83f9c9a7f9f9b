-- ===== src/CacheInfo/Accounts.antt =====
-- The keys of accounts, delegation, batches and pending work, of src/utils/cache.info.ts. An argument is the text that it has in the key.
use api_elrond_com.Common.{String, ◌*◌, ◌+text◌, string_eq}
use api_elrond_com.CacheInfo.{CacheInfo, Durations}

module _ (durations : Durations) where
  abbrev pub generate_thumbnails : String → CacheInfo
  generate_thumbnails identifier = record {
    key = "generateThumbnails:" +text identifier;
    ttl = durations.one_hour * 24;
  }

  abbrev pub collection_non_sc_owner : String → CacheInfo
  collection_non_sc_owner collection = record {
    key = "collectionNonScOwner:" +text collection;
    ttl = durations.one_minute * 10;
  }

  abbrev pub delegation_legacy : CacheInfo
  delegation_legacy = record { key = "delegationLegacy"; ttl = durations.one_minute * 10 }

  abbrev pub extended_attributes_activation_nonce : CacheInfo
  extended_attributes_activation_nonce = record {
    key = "extendedAttributesActivationNonce";
    ttl = durations.one_day;
  }

  abbrev pub init_epoch : CacheInfo
  init_epoch = record { key = "initEpoch"; ttl = durations.one_day }

  abbrev pub locked_token_i_ds : CacheInfo
  locked_token_i_ds = record { key = "lockedTokenIDs"; ttl = durations.one_hour }

  abbrev pub current_epoch : CacheInfo
  current_epoch = record { key = "currentEpoch"; ttl = durations.one_minute }

  abbrev pub transaction_batch : String → String → CacheInfo
  transaction_batch sender batch_id = record {
    key = "transactionbatch:" +text sender +text ":" +text batch_id;
    ttl = durations.one_minute * 20;
  }

  abbrev pub pending_transaction : String → CacheInfo
  pending_transaction hash = record {
    key = "pendingtransaction:" +text hash;
    ttl = durations.one_minute * 15;
  }

  abbrev pub accounts_count : CacheInfo
  accounts_count = record { key = "account:count"; ttl = durations.one_minute }

  abbrev pub account_username : String → CacheInfo
  account_username address = record {
    key = "account:" +text address +text ":username";
    ttl = durations.one_week;
  }

  abbrev pub account_deployed_at : String → CacheInfo
  account_deployed_at address = record {
    key = "accountDeployedAt:" +text address;
    ttl = durations.one_day;
  }

  abbrev pub account_deploy_tx_hash : String → CacheInfo
  account_deploy_tx_hash address = record {
    key = "accountDeployTxHash:" +text address;
    ttl = durations.one_day;
  }

  abbrev pub account_is_verified : String → CacheInfo
  account_is_verified address = record {
    key = "accountIsVerified:" +text address;
    ttl = durations.one_minute * 10;
  }

  abbrev pub accounts : String → String → CacheInfo
  accounts start size = record {
    key = "accounts:" +text start +text ":" +text size;
    ttl = durations.one_minute;
  }

  abbrev pub blocks_count : String → CacheInfo
  blocks_count filter = record { key = "blocks:count:" +text filter; ttl = durations.one_minute }

  abbrev pub delegation : CacheInfo
  delegation = record { key = "delegation"; ttl = durations.one_minute * 10 }

  abbrev pub constants : CacheInfo
  constants = record { key = "constants"; ttl = durations.one_day }

  abbrev pub nft_owners_count : String → CacheInfo
  nft_owners_count identifier = record {
    key = "nftOwnerCount:" +text identifier;
    ttl = durations.one_minute;
  }

  abbrev pub nft_tags : String → String → CacheInfo
  nft_tags start size = record {
    key = "nftTags:" +text start +text ":" +text size;
    ttl = durations.one_hour;
  }

  abbrev pub nft_tag_count : CacheInfo
  nft_tag_count = record { key = "nftTagsCount"; ttl = durations.one_hour }

  abbrev pub node_versions : CacheInfo
  node_versions = record { key = "nodeVersions"; ttl = durations.one_minute }

  abbrev pub delegation_providers : CacheInfo
  delegation_providers = record { key = "delegationProviders"; ttl = durations.one_minute }

  abbrev pub delegation_provider : String → CacheInfo
  delegation_provider address = record {
    key = "delegationProvider:" +text address;
    ttl = durations.one_minute;
  }

  abbrev pub global_stake : CacheInfo
  global_stake = record { key = "stake"; ttl = durations.one_minute * 10 }

  abbrev pub full_waiting_list : CacheInfo
  full_waiting_list = record { key = "waiting-list"; ttl = durations.one_minute * 5 }

  abbrev pub pending_upload_asset : String → CacheInfo
  pending_upload_asset identifier = record {
    key = "pendingUploadAsset:" +text identifier;
    ttl = durations.one_hour * 12;
  }

  abbrev pub pending_media_get : String → CacheInfo
  pending_media_get identifier = record {
    key = "pendingMediaGet:" +text identifier;
    ttl = durations.one_hour * 12;
  }

  abbrev pub pending_metadata_get : String → CacheInfo
  pending_metadata_get identifier = record {
    key = "pendingMetadataGet:" +text identifier;
    ttl = durations.one_hour * 12;
  }

  abbrev pub pending_generate_thumbnail : String → CacheInfo
  pending_generate_thumbnail identifier = record {
    key = "pendingGenerateThumbnail:" +text identifier;
    ttl = durations.one_hour * 12;
  }

  abbrev pub username : String → CacheInfo
  username address = record { key = "username:" +text address; ttl = durations.one_hour }

  abbrev pub contract_upgrades : String → CacheInfo
  contract_upgrades address = record {
    key = "contractUpgrades:" +text address;
    ttl = durations.one_hour;
  }

  abbrev pub setting : String → CacheInfo
  setting name = record { key = "api:settings:" +text name; ttl = durations.one_hour }
