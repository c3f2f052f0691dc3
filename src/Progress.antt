-- ===== src/Progress.antt =====
-- src/business/progress-rules.ts and src/business/lesson-quiz-pass.ts: when a lesson, level or grade
-- is complete, and the points that an attempt at a lesson quiz earns.
pub mod Completed
use edtech_lms_rpi_api.Prelude.{
  ℕ, ◌+◌, ◌*◌, ◌/◌, Bool, true, false, not, ◌&&◌, Option, none, some, String, if◌then◌else◌, eqb,
  leb, ltb,
}
use edtech_lms_rpi_api.Prelude.Text.{trim, is_empty}
use edtech_lms_rpi_api.Js.{Value, obj, is_true, get}
use edtech_lms_rpi_api.Score.{completed_percentage}

-- What the pass mark is made from; `none` is `null` or `undefined`.
pub record LessonPoints : Type 0 where
  pub passing_points : Option ℕ
  pub total_points : Option ℕ

abbrev pub positive : Option ℕ → Option ℕ
positive none = none
positive (some n) = if ltb 0 n then some n else none

-- `Math.ceil((total * COMPLETED_PERCENTAGE) / 100)`; the runtime's product is exact up to 2 ^ 46.
abbrev pub eighty_percent : ℕ → ℕ
eighty_percent total = (total * completed_percentage + 99) / 100

-- `none` is `Number.POSITIVE_INFINITY`.
unfoldable pub lesson_pass_mark : LessonPoints → Option ℕ
lesson_pass_mark lesson = elim (positive lesson.passing_points) [
  | some mark ↦ some mark
  | none ↦ elim (positive lesson.total_points) [
    | some total ↦ some (eighty_percent total)
    | none ↦ none
  ]
]

-- `points >= mark`
abbrev pub reaches : ℕ → Option ℕ → Bool
reaches points none = false
reaches points (some mark) = leb mark points

-- A stored progress, in hundredths; a total of 0 makes a quotient that is no number.
pub data Percent : Type 0 where
  hundredths : ℕ → Percent
  infinite : Percent
  not_a_number : Percent

-- `Number((points * 100 / total).toFixed(2))`: the hundredth nearest to the quotient, the greater one
-- at a tie. Below a total of 4000 the runtime's quotient rounds as the exact one does.
unfoldable pub progress_percent : ℕ → ℕ → Percent
progress_percent points total =
    if eqb total 0
    then if eqb points 0 then not_a_number else infinite
    else hundredths ((20000 * points + total) / (2 * total))

unfoldable pub percent_completed : Percent → Bool
percent_completed (hundredths p) = leb (100 * completed_percentage) p
percent_completed infinite = true
percent_completed not_a_number = false

-- What `organisations.findOne` answers.
pub data SettingsRead (N : Type 0) : Type 0 where
  failed : SettingsRead N
  no_row : SettingsRead N
  settings : Value N → SettingsRead N

module _ {N : Type 0} where
  -- `settingsconfig` that is an object, and no array.
  unfoldable pub requires_lesson_quiz_pass : Value N → Bool
  requires_lesson_quiz_pass (obj fs) = is_true (get (obj fs) "requireLessonQuizPass")
  requires_lesson_quiz_pass _ = false

  abbrev pub rule_of : SettingsRead N → Bool
  rule_of failed = false
  rule_of no_row = false
  rule_of (settings v) = requires_lesson_quiz_pass v

  -- The organisation of the token, and how its row is read.
  unfoldable pub lesson_quiz_pass_required : Option String → (String → SettingsRead N) → Bool
  unfolding requires_lesson_quiz_pass
  lesson_quiz_pass_required none read = false
  lesson_quiz_pass_required (some organisationid) read =
      if is_empty (trim organisationid) then false else rule_of (read (trim organisationid))

unfoldable pub lesson_quiz_attempt_points : Bool → Bool → ℕ → ℕ
lesson_quiz_attempt_points rule_on ispass points = if rule_on && not ispass then 0 else points
