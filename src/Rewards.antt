-- ===== src/Rewards.antt =====
-- src/business/lesson.business.ts: the points that a learner's lessons, levels and grades hold, and
-- their scores. The three tables hold one row for a learner and a lesson, level or grade.
pub mod Rows
pub mod Lessons
pub mod Gains
use edtech_lms_rpi_api.Prelude.{
  ℕ, suc, ◌+◌, ◌-◌, ℤ, pos, negsuc, sub_ℕ, pos_part, Bool, true, false, not, ◌&&◌, Option, none,
  some, List, [], ◌∷◌, String, if◌then◌else◌, eqb, leb, ltb, find,
}
use edtech_lms_rpi_api.Prelude.Text.{is_empty}
use edtech_lms_rpi_api.Progress.{
  LessonPoints, lesson_pass_mark, reaches, Percent, hundredths, infinite, not_a_number,
  progress_percent, percent_completed,
}

-- A row of `studentlessonsprogress`, `studentlevelsprogress` or `studentgradesprogress`: the learner,
-- the id of the lesson, level or grade, and `added_completed_scores` or `added_default_score` (the
-- grades' rows have neither). A NULL number is 0, as the runtime's arithmetic reads it.
pub record ProgressRow : Type 0 where
  pub studentid : String
  pub key : String
  pub points : ℕ
  pub progress : Percent
  pub completed : Bool
  pub scores : ℕ
  pub bonus_added : Bool
  pub lastupdated : ℕ

pub record Rewards : Type 0 where
  pub lessons : List ProgressRow
  pub levels : List ProgressRow
  pub grades : List ProgressRow

pub record Level : Type 0 where
  pub levelid : String
  pub gradeid : String
  pub points : ℕ
  pub quiz_points : ℕ

-- A lesson with the level that it is joined with.
pub record Lesson : Type 0 where
  pub lessonid : String
  pub total_points : ℕ
  pub passing_points : ℕ
  pub level : Level

pub record Grade : Type 0 where
  pub gradeid : String
  pub points : ℕ

-- The queries on lessons (joined with their levels) and on grades.
pub record Content : Type 0 where
  pub lesson : String → Option Lesson
  pub grade : String → Option Grade

-- The first row that fits is changed; without one, a row is created.
unfoldable pub upsert {ℓ} : {A : Type ℓ} → (A → Bool) → (A → A) → A → List A → List A
upsert p f fresh [] = fresh ∷ []
upsert p f fresh (x ∷ xs) = let rest = upsert p f fresh xs in if p x then f x ∷ xs else x ∷ rest

-- The first row that fits is changed, if there is one.
unfoldable pub change {ℓ} : {A : Type ℓ} → (A → Bool) → (A → A) → List A → List A
change p f [] = []
change p f (x ∷ xs) = let rest = change p f xs in if p x then f x ∷ xs else x ∷ rest

-- `p += (d < 0 && p + d < 0) ? 0 : d`
abbrev pub add_points : ℕ → ℤ → ℕ
add_points p (pos d) = p + d
add_points p (negsuc d) = if leb (suc d) p then p - suc d else p

-- `if (oldpoints) points = points - oldpoints`
abbrev pub reward_delta : ℕ → Option ℕ → ℤ
reward_delta points none = pos points
reward_delta points (some old) = if eqb old 0 then pos points else sub_ℕ points old

-- `points >= 0`, and `points > 0`.
abbrev pub is_nonneg : ℤ → Bool
is_nonneg (pos d) = true
is_nonneg (negsuc d) = false

abbrev pub is_positive : ℤ → Bool
is_positive (pos d) = ltb 0 d
is_positive (negsuc d) = false

-- `Math.max(0, points - overflow)`
abbrev pub without_overflow : ℤ → ℕ → ℕ
without_overflow (pos d) overflow = d - overflow
without_overflow (negsuc d) overflow = 0

abbrev pub pass_mark : Lesson → Option ℕ
pass_mark lesson = lesson_pass_mark (record {
  passing_points = some lesson.passing_points;
  total_points = some lesson.total_points;
})

-- The points of an existing lesson row, and what is left for the level and the grade.
unfoldable pub lesson_gain : ℕ → ℕ → ℤ → ℕ × ℤ
lesson_gain total points delta =
    let sum = add_points points delta in
    if ltb total sum then (total, pos (without_overflow delta (sum - total))) else (sum, delta)

unfoldable pub changed_lesson : Lesson → ℤ → ℕ → ProgressRow → ProgressRow
unfolding lesson_gain
changed_lesson lesson delta currentdate row =
    let (points, rest) = lesson_gain lesson.total_points row.points delta in
    record row {
      points = points;
      progress = progress_percent points lesson.total_points;
      completed = reaches points (pass_mark lesson);
      lastupdated = currentdate;
    }

unfoldable pub created_lesson : Lesson → String → String → ℤ → ℕ → ProgressRow
created_lesson lesson studentid lessonid delta currentdate = record {
  studentid = studentid;
  key = lessonid;
  points = pos_part delta;
  progress =
      if is_nonneg delta
      then progress_percent (pos_part delta) lesson.total_points
      else hundredths 0;
  completed = is_nonneg delta && reaches (pos_part delta) (pass_mark lesson);
  scores = 0;
  bonus_added = false;
  lastupdated = currentdate;
}

-- The row of a level or a grade, whose points are `total`.
unfoldable pub changed_total : ℕ → ℤ → ℕ → ProgressRow → ProgressRow
changed_total total delta currentdate row =
    let points = add_points row.points delta in
    record row {
      points = points;
      progress = progress_percent points total;
      completed = percent_completed (progress_percent points total);
      lastupdated = currentdate;
    }

-- `counts` is the test of the source on the points: `>= 0` for a lesson's, `> 0` for a level quiz's.
unfoldable pub created_total : ℕ → String → String → Bool → ℤ → ℕ → ProgressRow
created_total total studentid id counts delta currentdate = record {
  studentid = studentid;
  key = id;
  points = if counts then pos_part delta else 0;
  progress = if counts then progress_percent (pos_part delta) total else hundredths 0;
  completed = counts && percent_completed (progress_percent (pos_part delta) total);
  scores = 0;
  bonus_added = false;
  lastupdated = currentdate;
}

-- The percentage of a lesson is 100 or more.
abbrev pub is_full : Percent → Bool
is_full (hundredths p) = leb 10000 p
is_full infinite = true
is_full not_a_number = false
