-- ===== src/LockedAsset/Milestones.antt =====
-- What the aggregated milestones keep of the schedule.
use Prim.Native.Nat.{◌<◌}
use api_elrond_com.Common.{ℕ, ◌+◌, ◌≡◌, List, [], ◌∷◌, nat_beq, if◌then◌else◌, arith}
use api_elrond_com.LockedAsset.{
  UnlockMilestone, UnlockMileStoneModel, get_remaining_epochs, add_percent, aggregate,
  get_unlock_milestones,
}

-- The percent that is unlocked after a number of epochs, in the milestones and in the schedule.
abbrev pub percent_at : ℕ → List UnlockMileStoneModel → ℕ
percent_at n [] = 0
percent_at n (m ∷ ms) = (if nat_beq n m.remaining_epochs then m.percent else 0) + percent_at n ms

abbrev pub scheduled_at : ℕ → ℕ → ℕ → List UnlockMilestone → ℕ
scheduled_at init current n [] = 0
scheduled_at init current n (m ∷ schedule) =
    (if nat_beq n (get_remaining_epochs init current m.epoch) then m.percent else 0)
    + scheduled_at init current n schedule

-- The epochs ascend from one milestone to the next.
abbrev pub IsAbove : ℕ → List UnlockMileStoneModel → Type 0
IsAbove n [] = Unit
IsAbove n (m ∷ ms) = (n < m.remaining_epochs) × IsAbove m.remaining_epochs ms

abbrev pub IsAscending : List UnlockMileStoneModel → Type 0
IsAscending [] = Unit
IsAscending (m ∷ ms) = IsAbove m.remaining_epochs ms

percent_at-add_percent :
    (n r p : ℕ) (ms : List UnlockMileStoneModel)
    → percent_at n (add_percent r p ms) ≡ (if nat_beq n r then p else 0) + percent_at n ms
unfolding add_percent
percent_at-add_percent n r p [] = ground arith
percent_at-add_percent n r p (m ∷ ms) = ground (arith, percent_at-add_percent n r p ms)

add_percent-IsAbove :
    (n r p : ℕ) (ms : List UnlockMileStoneModel)
    → n < r
    → IsAbove n ms
    → IsAbove n (add_percent r p ms)
unfolding add_percent
add_percent-IsAbove n r p [] lt h = (lt, tt)
add_percent-IsAbove n r p (m ∷ ms) lt (above, h) =
    ground (arith, add_percent-IsAbove m.remaining_epochs r p ms)

add_percent-IsAscending :
    (r p : ℕ) (ms : List UnlockMileStoneModel) → IsAscending ms → IsAscending (add_percent r p ms)
unfolding add_percent
add_percent-IsAscending r p [] h = tt
add_percent-IsAscending r p (m ∷ ms) h =
    ground (arith, add_percent-IsAbove m.remaining_epochs r p ms)

percent_at-aggregate :
    (init current n : ℕ) (schedule : List UnlockMilestone) (ms : List UnlockMileStoneModel)
    → percent_at n (aggregate init current schedule ms)
      ≡ scheduled_at init current n schedule + percent_at n ms
unfolding aggregate
percent_at-aggregate init current n [] ms = omega arith
percent_at-aggregate init current n (m ∷ schedule) ms =
    let r = get_remaining_epochs init current m.epoch in
    omega (
      arith,
      percent_at-aggregate init current n schedule (add_percent r m.percent ms),
      percent_at-add_percent n r m.percent ms,
    )

aggregate-IsAscending :
    (init current : ℕ) (schedule : List UnlockMilestone) (ms : List UnlockMileStoneModel)
    → IsAscending ms
    → IsAscending (aggregate init current schedule ms)
unfolding aggregate
aggregate-IsAscending init current [] ms h = h
aggregate-IsAscending init current (m ∷ schedule) ms h =
    aggregate-IsAscending init current schedule _
      (add_percent-IsAscending (get_remaining_epochs init current m.epoch) m.percent ms h)

-- The milestones ascend strictly in their remaining epochs, and the percent at any number of remaining
-- epochs is the sum of the schedule's percents that are that far away.
pub get_unlock_milestones-percent :
    (init current : ℕ) (schedule : List UnlockMilestone) (n : ℕ)
    → IsAscending (get_unlock_milestones init current schedule)
      × (percent_at n (get_unlock_milestones init current schedule)
          ≡ scheduled_at init current n schedule)
unfolding get_unlock_milestones
get_unlock_milestones-percent init current schedule n = (
  aggregate-IsAscending init current schedule [] tt,
  omega (arith, percent_at-aggregate init current n schedule []),
)
