-- ===== src/LockedAsset.antt =====
-- The unlock schedule of locked assets: `getUnlockMilestones`, `getRemainingEpochs` and
-- `getMonthStartEpoch` of src/common/locked-asset/locked-asset.service.ts.
pub mod Milestones
pub mod Epochs
mod Tests
use api_elrond_com.Common.{
  ℕ, ◌+◌, ◌-◌, ◌%◌, Bool, true, false, ◌&&◌, Option, none, some, List, [], ◌∷◌, ltb, leb, nat_beq,
  if◌then◌else◌,
}

-- A percent is counted in the unit of the schedule: thousandths where the token carries an activation
-- nonce, for which the code divides by 1000.
pub record UnlockMilestone : Type 0 where
  pub epoch : ℕ
  pub percent : ℕ

pub record UnlockMileStoneModel : Type 0 where
  pub remaining_epochs : ℕ
  pub percent : ℕ

-- JavaScript's `%` has the sign of its left side.
unfoldable pub get_month_start_epoch : ℕ → ℕ → ℕ
get_month_start_epoch init unlock =
    if leb init unlock then unlock - (unlock - init) % 30 else unlock + (init - unlock) % 30

-- With `remainingEpochs > 0 ? remainingEpochs : 0` of the caller, which is the subtraction of ℕ.
unfoldable pub get_remaining_epochs : ℕ → ℕ → ℕ → ℕ
unfolding get_month_start_epoch
get_remaining_epochs init current unlock =
    let start = get_month_start_epoch init unlock in
    if leb unlock start && leb unlock current then 0 else (start + 30) - current

-- `aggregatedMilestones[remainingEpochs] += percent`; the keys of an object that are numbers are in
-- ascending order.
unfoldable pub add_percent : ℕ → ℕ → List UnlockMileStoneModel → List UnlockMileStoneModel
add_percent remaining percent [] = record { remaining_epochs = remaining; percent = percent } ∷ []
add_percent remaining percent (m ∷ ms) =
    let rest = add_percent remaining percent ms in
    if nat_beq remaining m.remaining_epochs
    then record m { percent = m.percent + percent } ∷ ms
    else if ltb remaining m.remaining_epochs
    then record { remaining_epochs = remaining; percent = percent } ∷ m ∷ ms
    else m ∷ rest

unfoldable pub aggregate :
    ℕ → ℕ → List UnlockMilestone → List UnlockMileStoneModel → List UnlockMileStoneModel
unfolding add_percent get_remaining_epochs
aggregate init current [] ms = ms
aggregate init current (m ∷ schedule) ms =
    aggregate init current schedule
      (add_percent (get_remaining_epochs init current m.epoch) m.percent ms)

unfoldable pub get_unlock_milestones : ℕ → ℕ → List UnlockMilestone → List UnlockMileStoneModel
unfolding aggregate
get_unlock_milestones init current schedule = aggregate init current schedule []
