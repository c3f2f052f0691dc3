-- ===== src/Results.antt =====
-- src/business/result.business.ts: the stored attempts of learners at practices, quizzes and level
-- quizzes, and what is read of them before an attempt is saved.
pub mod Save
pub mod Create
pub mod Steps
pub mod Newest
pub mod Resent
pub mod Graded
pub mod Handlers
use edtech_lms_rpi_api.Prelude.{
  ℕ, Bool, true, false, not, ◌&&◌, Option, none, some, List, [], ◌∷◌, String, if◌then◌else◌, eqb,
  leb, ltb, any, filter, find,
}
use edtech_lms_rpi_api.Js.{Value, property}
use edtech_lms_rpi_api.Submission.{Mode, is_enforce, ServerGrade, GradedItem}
use edtech_lms_rpi_api.Score.{ResultContainer, completed_percentage}
use edtech_lms_rpi_api.Rewards.{Rewards}

-- A row of `studentprogress`. The percentage is in hundredths.
pub record Attempt : Type 0 where
  pub studentprogressid : String
  pub progresstype : ResultContainer
  pub studentid : String
  pub studentprogressreferenceid : String
  pub starttime : ℕ
  pub endtime : Option ℕ
  pub ispass : Bool
  pub verified : Bool
  pub marks : ℕ
  pub points : Option ℕ
  pub fullpoints : ℕ
  pub resultpercentage : ℕ
  pub scores : ℕ

-- A row of `studentprogressquestions`, without its own id.
pub record AnswerRow (N : Type 0) : Type 0 where
  pub studentprogressid : String
  pub referencequestionid : Option String
  pub tries : Value N
  pub iscorrect : Bool
  pub answer : Value N
  pub clientiscorrect : Bool
  pub servergrade : Option ServerGrade

-- A row of `studentactives`, without its own id.
pub record Active : Type 0 where
  pub studentid : String
  pub referenceid : String
  pub referencetype : ℕ
  pub created_at : ℕ

pub record Store (N : Type 0) : Type 0 where
  pub attempts : List Attempt
  pub answers : List (AnswerRow N)
  pub rewards : Rewards
  pub actives : List Active

-- The environment's GRADING_MODE and REQUIRE_GRADED_ANSWERS.
pub record Config : Type 0 where
  pub mode : Mode
  pub require_graded_answers : Bool

abbrev pub is_strict : Config → Bool
is_strict config = is_enforce config.mode && config.require_graded_answers

-- The test that the clause adds to a query for passes.
unfoldable pub counted_pass_clause : Config → Attempt → Bool
counted_pass_clause config a = if is_strict config then a.verified else true

-- Of a percentage in hundredths.
unfoldable pub calculate_score : ℕ → ℕ
calculate_score percentage =
    if leb 8000 percentage && ltb percentage 9100
    then 1
    else if leb 9100 percentage && ltb percentage 9600
    then 2
    else if leb 9600 percentage
    then 3
    else 0

unfoldable pub answer_row : {N : Type 0} → String → GradedItem N → AnswerRow N
answer_row studentprogressid x = record {
  studentprogressid = studentprogressid;
  referencequestionid = x.raw.id;
  tries = property x.raw.other "tries";
  iscorrect = x.iscorrect;
  answer = x.raw.answer;
  clientiscorrect = x.clientiscorrect;
  servergrade = x.servergrade;
}

-- The first row in the order of the start times, the latest first. Rows of one learner and activity
-- have different start times.
unfoldable pub newest : List Attempt → Option Attempt
newest [] = none
newest (a ∷ rows) = elim (newest rows) [
  | none ↦ some a
  | some b ↦ if leb b.starttime a.starttime then some a else some b
]

unfoldable pub oldest : List Attempt → Option Attempt
oldest [] = none
oldest (a ∷ rows) = elim (oldest rows) [
  | none ↦ some a
  | some b ↦ if leb a.starttime b.starttime then some a else some b
]

-- The points of a row, if they are not the new ones; NULL is none of them.
abbrev pub changed_points : ℕ → Option Attempt → Option ℕ
changed_points newpoints none = none
changed_points newpoints (some a) = elim a.points [
  | none ↦ none
  | some points ↦ if eqb points newpoints then none else some points
]

-- `same` is how the database compares two ids.
module _ (same : String → String → Bool) where
  -- `where: { studentid, studentprogressreferenceid }`
  abbrev pub is_try : String → String → Attempt → Bool
  is_try studentid reference a =
      same a.studentid studentid && same a.studentprogressreferenceid reference

  -- A pass; `gated` applies the rule on verified passes.
  abbrev pub is_counted_pass : Config → Bool → String → String → Attempt → Bool
  is_counted_pass config gated studentid reference a =
      is_try studentid reference a
      && a.ispass
      && (if gated then counted_pass_clause config a else true)

  unfoldable pub is_pass : Config → Bool → String → String → List Attempt → Bool
  unfolding counted_pass_clause
  is_pass config gated studentid reference = any (is_counted_pass config gated studentid reference)

  unfoldable pub has_tried : String → String → List Attempt → Bool
  has_tried studentid reference = any (is_try studentid reference)

  unfoldable pub get_newest_attempt : String → String → List Attempt → Option Attempt
  unfolding newest
  get_newest_attempt studentid reference rows = newest (filter (is_try studentid reference) rows)

  unfoldable pub get_old_points : String → String → ℕ → List Attempt → Option ℕ
  unfolding newest
  get_old_points studentid reference newpoints rows =
      changed_points newpoints (newest (filter (is_try studentid reference) rows))

  unfoldable pub get_pass_old_points : Config → String → String → ℕ → List Attempt → Option ℕ
  unfolding oldest counted_pass_clause
  get_pass_old_points config studentid reference newpoints rows =
      changed_points newpoints
        (oldest (filter (is_counted_pass config true studentid reference) rows))
