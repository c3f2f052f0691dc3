-- ===== src/Tests/Rewards.antt =====
-- Runs of the rewards at concrete inputs.
use edtech_lms_rpi_api.Prelude.{
  ◌*◌, ◌≤◌, ◌≡◌, refl, ap, ◌↔◌, ◌==◌, eq_iff, Bool, true, false, none, some, [], ◌∷◌, String,
  if◌then◌else◌, arith, All,
}
use edtech_lms_rpi_api.Progress.{
  lesson_pass_mark, reaches, hundredths, progress_percent, percent_completed,
}
use edtech_lms_rpi_api.Progress.Completed.{completed_iff}
use edtech_lms_rpi_api.Rewards.{ProgressRow, Rewards, Level, Lesson, Grade, Content}
use edtech_lms_rpi_api.Rewards.Rows.{update_user_reward}
use edtech_lms_rpi_api.Rewards.Lessons.{
  IsSettled, IsConsistent, reward, start, next, Reachable-IsSettled,
}
use edtech_lms_rpi_api.Rewards.Gains.{held}

abbrev same_id : String → String → Bool
same_id a b = a == b

abbrev pub level_one : Level
level_one = record { levelid = "v1"; gradeid = "g1"; points = 100; quiz_points = 10 }

abbrev lesson_one : Lesson
lesson_one = record { lessonid = "l1"; total_points = 20; passing_points = 0; level = level_one }

abbrev grade_one : Grade
grade_one = record { gradeid = "g1"; points = 200 }

abbrev pub content : Content
content = record {
  lesson = λ id. if id == "l1" then some lesson_one else none;
  grade = λ id. if id == "g1" then some grade_one else none;
}

abbrev pub nothing : Rewards
nothing = record { lessons = []; levels = []; grades = [] }

abbrev lesson_row : ProgressRow
lesson_row = record {
  studentid = "s";
  key = "l1";
  points = 15;
  progress = hundredths 7500;
  completed = false;
  scores = 0;
  bonus_added = false;
  lastupdated = 1;
}

abbrev before : Rewards
before = record { lessons = lesson_row ∷ []; levels = []; grades = [] }

-- Ten points for a lesson that lacks five: five of them reach the level and the grade.
reward_runs :
    (held same_id "s" "l1" (update_user_reward same_id content "s" "l1" 10 none 2 before).lessons
      ≡ 20)
    × (held same_id "s" "v1" (update_user_reward same_id content "s" "l1" 10 none 2 before).levels
        ≡ 5)
    × (held same_id "s" "g1" (update_user_reward same_id content "s" "l1" 10 none 2 before).grades
        ≡ 5)
unfolding held update_user_reward
reward_runs = (refl, refl, refl)

completed_iff_example :
    ((reaches 8 (lesson_pass_mark (record { passing_points = none; total_points = some 10 }))
        ≡ true)
      ↔ (4 * 10 ≤ 5 * 8))
    × ((percent_completed (progress_percent 8 10) ≡ true) ↔ (4 * 10 ≤ 5 * 8))
    × (reaches 8 (lesson_pass_mark (record { passing_points = none; total_points = none })) ≡ false)
completed_iff_example = completed_iff 8 10 (omega arith) (omega arith)

content-IsConsistent : IsConsistent same_id content
content-IsConsistent a b h = ap content.lesson ((eq_iff a b).0 h)

Reachable-IsSettled_example :
    All (IsSettled content) (update_user_reward same_id content "s" "l1" 10 none 1 nothing).lessons
Reachable-IsSettled_example =
    Reachable-IsSettled same_id content content-IsConsistent
      (update_user_reward same_id content "s" "l1" 10 none 1 nothing)
      (next start (reward "s" "l1" 10 none 1 nothing (λ lesson e. ground arith)))
