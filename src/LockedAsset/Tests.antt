-- ===== src/LockedAsset/Tests.antt =====
-- Unlock schedules run, and the properties at inputs of their own.
use Prim.Native.Nat.{◌≤◌}
use api_elrond_com.Common.{◌+◌, ◌-◌, ◌%◌, ◌≡◌, ◌↔◌, ◌⊎◌, refl, List, [], ◌∷◌, arith}
use api_elrond_com.LockedAsset.{
  UnlockMilestone, get_month_start_epoch, get_remaining_epochs, get_unlock_milestones,
}
use api_elrond_com.LockedAsset.Milestones.{
  IsAscending, percent_at, scheduled_at, get_unlock_milestones-percent,
}
use api_elrond_com.LockedAsset.Epochs.{get_remaining_epochs-zero}

abbrev schedule : List UnlockMilestone
schedule =
    record { epoch = 70; percent = 20 }
    ∷ record { epoch = 40; percent = 30 }
    ∷ record { epoch = 71; percent = 50 }
    ∷ []

schedule_milestones :
    get_unlock_milestones 0 50 schedule
    ≡ record { remaining_epochs = 10; percent = 30 }
      ∷ record { remaining_epochs = 40; percent = 70 }
      ∷ []
unfolding get_unlock_milestones
schedule_milestones = refl

get_unlock_milestones-percent_example :
    IsAscending (get_unlock_milestones 0 50 schedule)
    × (percent_at 40 (get_unlock_milestones 0 50 schedule) ≡ scheduled_at 0 50 40 schedule)
get_unlock_milestones-percent_example = get_unlock_milestones-percent 0 50 schedule 40

get_remaining_epochs-zero_example :
    (get_remaining_epochs 10 65 40 ≡ 0)
    ↔ ((get_month_start_epoch 10 40 + 30 ≤ 65) ⊎ (((40 - 10) % 30 ≡ 0) × (40 ≤ 65)))
get_remaining_epochs-zero_example = get_remaining_epochs-zero 10 65 40 (omega arith)
