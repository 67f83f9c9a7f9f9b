-- ===== src/CacheInfo/Reading.antt =====
-- The entry that a key belongs to: the key is cut at its first colon.
use Prim.Native.Char.{code}
use api_elrond_com.Common.{
  ℕ, String, Option, none, some, List, [], ◌∷◌, string_eq, ◌==◌, nat_beq, strip_prefix,
  if◌then◌else◌,
}
use api_elrond_com.CacheInfo.Entry.{Entry}

-- What stands in front of the first character of the given code, and what behind it.
unfoldable pub cut_at : ℕ → String → String × Option String
cut_at sep String.[] = ("", none)
cut_at sep (String.◌∷◌ c s) =
    let rest = cut_at sep s in
    if nat_beq (code c) sep then ("", some s) else (String.◌∷◌ c (rest.0), rest.1)

abbrev pub cut : String → String × Option String
cut = cut_at b':'

-- The values of a table by name.
unfoldable pub find_name {ℓ} : {A : Type ℓ} → String → List (String × A) → Option A
find_name name [] = none
find_name name ((n, a) ∷ rest) = if n == name then some a else find_name name rest

abbrev pub names : List (String × Entry)
names =
    ("about", Entry.about)
    ∷ ("lastProcessedTimestamp", Entry.last_processed_timestamp)
    ∷ ("tokenMarketCap", Entry.token_market_cap)
    ∷ ("nodes", Entry.nodes)
    ∷ ("numShards", Entry.num_shards)
    ∷ ("genesisTimestamp", Entry.genesis_timestamp)
    ∷ ("shards", Entry.active_shards)
    ∷ ("allEsdtTokens", Entry.all_esdt_tokens)
    ∷ ("identities", Entry.identities)
    ∷ ("providers", Entry.providers)
    ∷ ("providersWithStakeInformation", Entry.providers_with_stake_information)
    ∷ ("keybases", Entry.keybases)
    ∷ ("identityProfilesKeybases", Entry.identity_profiles_keybases)
    ∷ ("currentPrice", Entry.current_price)
    ∷ ("economics", Entry.economics)
    ∷ ("tokenAssets", Entry.token_assets)
    ∷ ("collectionRanks", Entry.collection_ranks)
    ∷ ("accountLabels", Entry.account_assets)
    ∷ ("mexEconomics", Entry.mex_economics)
    ∷ ("mexPairs", Entry.mex_pairs)
    ∷ ("mexTokens", Entry.mex_tokens)
    ∷ ("mexFarms", Entry.mex_farms)
    ∷ ("mexStakingProxies", Entry.staking_proxies)
    ∷ ("mexTokensIndexed", Entry.mex_tokens_indexed)
    ∷ ("mexPrices", Entry.mex_prices)
    ∷ ("delegationLegacy", Entry.delegation_legacy)
    ∷ ("extendedAttributesActivationNonce", Entry.extended_attributes_activation_nonce)
    ∷ ("initEpoch", Entry.init_epoch)
    ∷ ("lockedTokenIDs", Entry.locked_token_i_ds)
    ∷ ("currentEpoch", Entry.current_epoch)
    ∷ ("delegation", Entry.delegation)
    ∷ ("constants", Entry.constants)
    ∷ ("nftTagsCount", Entry.nft_tag_count)
    ∷ ("nodeVersions", Entry.node_versions)
    ∷ ("delegationProviders", Entry.delegation_providers)
    ∷ ("stake", Entry.global_stake)
    ∷ ("waiting-list", Entry.full_waiting_list)
    ∷ []

-- The names that stand in front of a single argument.
abbrev pub tags : List (String × (String → Entry))
tags =
    ("keybase", Entry.keybase_confirmation)
    ∷ ("txCount", Entry.tx_count)
    ∷ ("identityProfile", Entry.identity_profile)
    ∷ ("shardNonce", Entry.transaction_processor_shard_nonce)
    ∷ ("completedShardNonce", Entry.transaction_completed_shard_nonce)
    ∷ ("batchShardNonce", Entry.transaction_batch_shard_nonce)
    ∷ ("nftMetadata", Entry.nft_metadata)
    ∷ ("nftMedia", Entry.nft_media)
    ∷ ("nftMediaProperties", Entry.nft_media_properties)
    ∷ ("tokenLockedAccounts", Entry.token_locked_accounts)
    ∷ ("tokenSupply", Entry.token_supply)
    ∷ ("tokenTransactions", Entry.token_transactions)
    ∷ ("tokenAccounts", Entry.token_accounts)
    ∷ ("tokenAccountsExtra", Entry.token_accounts_extra)
    ∷ ("stakeTopup", Entry.stake_topup)
    ∷ ("collectionType", Entry.collection_type)
    ∷ ("generateThumbnails", Entry.generate_thumbnails)
    ∷ ("collectionNonScOwner", Entry.collection_non_sc_owner)
    ∷ ("pendingtransaction", Entry.pending_transaction)
    ∷ ("accountDeployedAt", Entry.account_deployed_at)
    ∷ ("accountDeployTxHash", Entry.account_deploy_tx_hash)
    ∷ ("accountIsVerified", Entry.account_is_verified)
    ∷ ("nftOwnerCount", Entry.nft_owners_count)
    ∷ ("delegationProvider", Entry.delegation_provider)
    ∷ ("pendingUploadAsset", Entry.pending_upload_asset)
    ∷ ("pendingMediaGet", Entry.pending_media_get)
    ∷ ("pendingMetadataGet", Entry.pending_metadata_get)
    ∷ ("pendingGenerateThumbnail", Entry.pending_generate_thumbnail)
    ∷ ("username", Entry.username)
    ∷ ("contractUpgrades", Entry.contract_upgrades)
    ∷ []

abbrev pub both : (String → String → Entry) → String × Option String → Option Entry
both f (a, none) = none
both f (a, some b) = some (f a b)

abbrev pub read_esdt : String × Option String → Option Entry
read_esdt (a, none) = some (Entry.esdt_properties a)
read_esdt (a, some b) =
    if a == "roles"
    then some (Entry.esdt_addresses_roles b)
    else if a == "assets"
    then some (Entry.esdt_assets b)
    else none

abbrev pub read_mex : String → Option Entry
read_mex s =
    if s == "settings"
    then some Entry.mex_settings
    else if s == "contracts"
    then some Entry.mex_contracts
    else none

abbrev pub read_account : String × Option String → Option Entry
read_account (a, none) = if a == "count" then some Entry.accounts_count else none
read_account (a, some b) = if b == "username" then some (Entry.account_username a) else none

abbrev pub read_after : String → (String → Entry) → String → Option Entry
read_after p f s = elim (strip_prefix p s) [ none ↦ none | some rest ↦ some (f rest) ]

-- The entries with more than a name and one argument.
unfoldable pub read_other : String → String → Option Entry
unfolding cut_at
read_other tag rest =
    if tag == "esdt"
    then read_esdt (cut rest)
    else if tag == "mex"
    then read_mex rest
    else if tag == "account"
    then read_account (cut rest)
    else if tag == "accounts"
    then both Entry.accounts (cut rest)
    else if tag == "nftTags"
    then both Entry.nft_tags (cut rest)
    else if tag == "owner"
    then both Entry.owner_by_epoch_and_bls (cut rest)
    else if tag == "historical-price"
    then both Entry.historical_price (cut rest)
    else if tag == "transactionbatch"
    then both Entry.transaction_batch (cut rest)
    else if tag == "token"
    then read_after "transfer:properties:v2:" Entry.token_transfer_properties rest
    else if tag == "transaction"
    then read_after "pendingresults:" Entry.transaction_pending_results rest
    else if tag == "blocks"
    then read_after "count:" Entry.blocks_count rest
    else if tag == "api"
    then read_after "settings:" Entry.setting rest
    else none

abbrev pub read_tagged : Option (String → Entry) → String → String → Option Entry
read_tagged (some f) tag rest = some (f rest)
read_tagged none tag rest = read_other tag rest

-- A key without a colon is a name, or else a shard and an epoch.
abbrev pub read_name : String → String × Option String → Option Entry
read_name name (_, none) = find_name name names
read_name name (shard, some epoch) = some (Entry.shard_and_epoch_blses shard epoch)

abbrev pub read_cut : String × Option String → Option Entry
read_cut (name, none) = read_name name (cut_at b'_' name)
read_cut (tag, some rest) = read_tagged (find_name tag tags) tag rest

unfoldable pub read_key : String → Option Entry
unfolding cut_at find_name read_other
read_key s = read_cut (cut s)
