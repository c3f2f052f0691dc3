-- ===== src/Rewards/Gains.antt =====
-- What a reward adds to the lesson, the level and the grade (`updateUserReward` of
-- src/business/lesson.business.ts).
use edtech_lms_rpi_api.Prelude.{ℕ, Bool, Option, none, some, List, String, find}
use edtech_lms_rpi_api.Rewards.{ProgressRow, Rewards}
use edtech_lms_rpi_api.Rewards.Rows.{row_of}

-- The row after a change: the changed one, or the new one.
abbrev after_upsert : {A : Type 0} → (A → A) → A → Option A → A
after_upsert f fresh none = fresh
after_upsert f fresh (some x) = f x

abbrev points_in : Option ProgressRow → ℕ
points_in none = 0
points_in (some row) = row.points

module _ (same : String → String → Bool) where
  -- The points that the tables hold for a learner and an id.
  unfoldable pub held : String → String → List ProgressRow → ℕ
  held studentid id rows = points_in (find (row_of same studentid id) rows)
