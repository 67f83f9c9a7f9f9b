-- ===== src/CacheInfo/Entry.antt =====
-- Every entry of the cache as data, and what the program keeps it under.
use api_elrond_com.Common.{String}
use api_elrond_com.CacheInfo.{CacheInfo, Durations}
use api_elrond_com.CacheInfo.General
use api_elrond_com.CacheInfo.Tokens
use api_elrond_com.CacheInfo.Accounts

pub data Entry : Type 0 where
  about last_processed_timestamp token_market_cap nodes : Entry
  num_shards genesis_timestamp active_shards all_esdt_tokens : Entry
  identities providers providers_with_stake_information keybases : Entry
  identity_profiles_keybases current_price economics top25_accounts : Entry
  token_assets collection_ranks account_assets mex_settings : Entry
  mex_contracts mex_economics mex_pairs mex_tokens : Entry
  mex_farms staking_proxies mex_tokens_indexed mex_prices : Entry
  delegation_legacy extended_attributes_activation_nonce init_epoch locked_token_i_ds : Entry
  current_epoch accounts_count delegation constants : Entry
  nft_tag_count node_versions delegation_providers global_stake : Entry
  full_waiting_list : Entry
  keybase_confirmation tx_count identity_profile transaction_processor_shard_nonce : String → Entry
  transaction_completed_shard_nonce transaction_batch_shard_nonce token_transfer_properties
        esdt_properties :
      String → Entry
  esdt_addresses_roles esdt_assets nft_metadata nft_media : String → Entry
  nft_media_properties token_locked_accounts token_supply token_transactions : String → Entry
  token_accounts token_accounts_extra transaction_pending_results stake_topup : String → Entry
  collection_type generate_thumbnails collection_non_sc_owner pending_transaction : String → Entry
  account_username account_deployed_at account_deploy_tx_hash account_is_verified : String → Entry
  blocks_count nft_owners_count delegation_provider pending_upload_asset : String → Entry
  pending_media_get pending_metadata_get pending_generate_thumbnail username : String → Entry
  contract_upgrades setting : String → Entry
  shard_and_epoch_blses owner_by_epoch_and_bls historical_price transaction_batch accounts
        nft_tags :
      String → String → Entry

module _ (durations : Durations) (today : String) where
  abbrev pub info_of : Entry → CacheInfo
  info_of Entry.about = General.about durations
  info_of Entry.last_processed_timestamp = General.last_processed_timestamp durations
  info_of Entry.token_market_cap = General.token_market_cap durations
  info_of Entry.nodes = General.nodes durations
  info_of Entry.num_shards = General.num_shards durations
  info_of Entry.genesis_timestamp = General.genesis_timestamp durations
  info_of Entry.active_shards = General.active_shards durations
  info_of Entry.all_esdt_tokens = General.all_esdt_tokens durations
  info_of Entry.identities = General.identities durations
  info_of Entry.providers = General.providers durations
  info_of Entry.providers_with_stake_information =
      General.providers_with_stake_information durations
  info_of Entry.keybases = General.keybases durations
  info_of (Entry.keybase_confirmation keybase) = General.keybase_confirmation durations keybase
  info_of (Entry.tx_count address) = General.tx_count durations address
  info_of Entry.identity_profiles_keybases = General.identity_profiles_keybases durations
  info_of (Entry.identity_profile key) = General.identity_profile durations key
  info_of Entry.current_price = General.current_price durations
  info_of Entry.economics = General.economics durations
  info_of Entry.top25_accounts = General.top25_accounts durations
  info_of (Entry.shard_and_epoch_blses shard epoch) =
      General.shard_and_epoch_blses durations shard epoch
  info_of (Entry.owner_by_epoch_and_bls epoch bls) =
      General.owner_by_epoch_and_bls durations epoch bls
  info_of (Entry.transaction_processor_shard_nonce shard) =
      General.transaction_processor_shard_nonce durations shard
  info_of (Entry.transaction_completed_shard_nonce shard) =
      General.transaction_completed_shard_nonce durations shard
  info_of (Entry.transaction_batch_shard_nonce shard) =
      General.transaction_batch_shard_nonce durations shard
  info_of Entry.token_assets = Tokens.token_assets durations
  info_of Entry.collection_ranks = Tokens.collection_ranks durations
  info_of Entry.account_assets = Tokens.account_assets durations
  info_of Entry.mex_settings = Tokens.mex_settings durations
  info_of Entry.mex_contracts = Tokens.mex_contracts durations
  info_of (Entry.token_transfer_properties identifier) =
      Tokens.token_transfer_properties durations identifier
  info_of (Entry.esdt_properties identifier) = Tokens.esdt_properties durations identifier
  info_of (Entry.esdt_addresses_roles identifier) = Tokens.esdt_addresses_roles durations identifier
  info_of (Entry.esdt_assets identifier) = Tokens.esdt_assets durations identifier
  info_of (Entry.historical_price identifier date) =
      Tokens.historical_price durations today identifier date
  info_of (Entry.nft_metadata identifier) = Tokens.nft_metadata durations identifier
  info_of (Entry.nft_media identifier) = Tokens.nft_media durations identifier
  info_of (Entry.nft_media_properties uri) = Tokens.nft_media_properties durations uri
  info_of (Entry.token_locked_accounts identifier) =
      Tokens.token_locked_accounts durations identifier
  info_of (Entry.token_supply identifier) = Tokens.token_supply durations identifier
  info_of (Entry.token_transactions identifier) = Tokens.token_transactions durations identifier
  info_of (Entry.token_accounts identifier) = Tokens.token_accounts durations identifier
  info_of (Entry.token_accounts_extra identifier) = Tokens.token_accounts_extra durations identifier
  info_of (Entry.transaction_pending_results hash) =
      Tokens.transaction_pending_results durations hash
  info_of (Entry.stake_topup address) = Tokens.stake_topup durations address
  info_of (Entry.collection_type collection_identifier) =
      Tokens.collection_type durations collection_identifier
  info_of Entry.mex_economics = Tokens.mex_economics durations
  info_of Entry.mex_pairs = Tokens.mex_pairs durations
  info_of Entry.mex_tokens = Tokens.mex_tokens durations
  info_of Entry.mex_farms = Tokens.mex_farms durations
  info_of Entry.staking_proxies = Tokens.staking_proxies durations
  info_of Entry.mex_tokens_indexed = Tokens.mex_tokens_indexed durations
  info_of Entry.mex_prices = Tokens.mex_prices durations
  info_of (Entry.generate_thumbnails identifier) = Accounts.generate_thumbnails durations identifier
  info_of (Entry.collection_non_sc_owner collection) =
      Accounts.collection_non_sc_owner durations collection
  info_of Entry.delegation_legacy = Accounts.delegation_legacy durations
  info_of Entry.extended_attributes_activation_nonce =
      Accounts.extended_attributes_activation_nonce durations
  info_of Entry.init_epoch = Accounts.init_epoch durations
  info_of Entry.locked_token_i_ds = Accounts.locked_token_i_ds durations
  info_of Entry.current_epoch = Accounts.current_epoch durations
  info_of (Entry.transaction_batch sender batch_id) =
      Accounts.transaction_batch durations sender batch_id
  info_of (Entry.pending_transaction hash) = Accounts.pending_transaction durations hash
  info_of Entry.accounts_count = Accounts.accounts_count durations
  info_of (Entry.account_username address) = Accounts.account_username durations address
  info_of (Entry.account_deployed_at address) = Accounts.account_deployed_at durations address
  info_of (Entry.account_deploy_tx_hash address) = Accounts.account_deploy_tx_hash durations address
  info_of (Entry.account_is_verified address) = Accounts.account_is_verified durations address
  info_of (Entry.accounts start size) = Accounts.accounts durations start size
  info_of (Entry.blocks_count filter) = Accounts.blocks_count durations filter
  info_of Entry.delegation = Accounts.delegation durations
  info_of Entry.constants = Accounts.constants durations
  info_of (Entry.nft_owners_count identifier) = Accounts.nft_owners_count durations identifier
  info_of (Entry.nft_tags start size) = Accounts.nft_tags durations start size
  info_of Entry.nft_tag_count = Accounts.nft_tag_count durations
  info_of Entry.node_versions = Accounts.node_versions durations
  info_of Entry.delegation_providers = Accounts.delegation_providers durations
  info_of (Entry.delegation_provider address) = Accounts.delegation_provider durations address
  info_of Entry.global_stake = Accounts.global_stake durations
  info_of Entry.full_waiting_list = Accounts.full_waiting_list durations
  info_of (Entry.pending_upload_asset identifier) =
      Accounts.pending_upload_asset durations identifier
  info_of (Entry.pending_media_get identifier) = Accounts.pending_media_get durations identifier
  info_of (Entry.pending_metadata_get identifier) =
      Accounts.pending_metadata_get durations identifier
  info_of (Entry.pending_generate_thumbnail identifier) =
      Accounts.pending_generate_thumbnail durations identifier
  info_of (Entry.username address) = Accounts.username durations address
  info_of (Entry.contract_upgrades address) = Accounts.contract_upgrades durations address
  info_of (Entry.setting name) = Accounts.setting durations name
