-- ===== src/CacheInfo/Unique.antt =====
-- No two entries of the cache share a key.
use Prim.Native.Char.{code}
use api_elrond_com.Common.{String, Bool, true, not, ◌&&◌, Lacks, nat_beq}
use api_elrond_com.CacheInfo.{Durations}
use api_elrond_com.CacheInfo.Entry.{Entry, info_of}

-- The test of `Lacks` for a colon.
abbrev has_no_colon : String → Bool
has_no_colon String.[] = true
has_no_colon (String.◌∷◌ c s) = not (nat_beq (code c) b':') && has_no_colon s

-- What the arguments in the middle of a key may not be: a text with a colon. The key of a shard and an
-- epoch has no name: neither has a colon in it, and the shard no underscore.
abbrev pub IsPlain : Entry → Type 0
IsPlain (Entry.shard_and_epoch_blses shard epoch) =
    Lacks b':' shard × Lacks b':' epoch × Lacks b'_' shard
IsPlain (Entry.esdt_properties identifier) = Lacks b':' identifier
IsPlain (Entry.account_username address) = Lacks b':' address
IsPlain (Entry.accounts start size) = Lacks b':' start
IsPlain (Entry.nft_tags start size) = Lacks b':' start
IsPlain (Entry.owner_by_epoch_and_bls epoch bls) = Lacks b':' epoch
IsPlain (Entry.historical_price identifier date) = Lacks b':' identifier
IsPlain (Entry.transaction_batch sender batch_id) = Lacks b':' sender
IsPlain _ = Unit

-- The first page of 25 accounts is also kept under a name of its own.
abbrev pub page_of : Entry → Entry
page_of Entry.top25_accounts = Entry.accounts "0" "25"
page_of e = e

module _ (durations : Durations) (today : String) where
  abbrev key_of : Entry → String
  key_of e = (info_of durations today e).key
