-- ===== src/LockedAsset/Epochs.antt =====
-- When a milestone unlocks.
use Prim.Native.Nat.{◌≤◌}
use api_elrond_com.Common.{ℕ, ◌+◌, ◌-◌, ◌%◌, ◌≡◌, ◌↔◌, ◌⊎◌, arith}
use api_elrond_com.LockedAsset.{get_month_start_epoch, get_remaining_epochs}

-- For an epoch that is not before the first one, nothing remains exactly if the month that starts at or
-- before the epoch is over, or if the epoch is the first of a month and has come.
pub get_remaining_epochs-zero :
    (init current unlock : ℕ)
    → init ≤ unlock
    → (get_remaining_epochs init current unlock ≡ 0) ↔ (
        (get_month_start_epoch init unlock + 30 ≤ current)
        ⊎ (((unlock - init) % 30 ≡ 0) × (unlock ≤ current)))
unfolding get_remaining_epochs get_month_start_epoch
get_remaining_epochs-zero init current unlock h = ground arith
