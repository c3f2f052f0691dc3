-- ===== src/Results/Create.antt =====
-- src/business/result.business.ts: the attempts at level quizzes and baselines; and
-- src/modules/result/result.controller.ts: what a submission writes for an activity that the learner
-- has passed before.
use edtech_lms_rpi_api.Prelude.{
  ℕ, Bool, true, Option, none, some, List, String, if◌then◌else◌, find, Result, ok, err,
}
use edtech_lms_rpi_api.Score.{levelquiz, baseline}
use edtech_lms_rpi_api.Rewards.{Level, Content}
use edtech_lms_rpi_api.Rewards.Rows.{
  update_user_reward, update_level_quiz_reward, add_student_level_quiz_scores,
}
use edtech_lms_rpi_api.Results.{Attempt, Store, Config, calculate_score}
use edtech_lms_rpi_api.Results.Save.{
  Progress, Plan, Luck, fine, broken, raced, Thrown, is_some, database_error,
  unique_constraint_error, earns, Calendar, attempt_of, insert, with_rewards, has_key,
  update_points, set_student_active, record_attempt,
}

-- An activity as the handlers read it: its id, its lesson, its points, and the full points that
-- the lesson has for activities of its kind.
pub record Activity : Type 0 where
  pub id : String
  pub lessonid : String
  pub points : ℕ
  pub fullpoints : ℕ

-- The unique index of `studentprogress` (src/db/migrations/20260818090000-unique-studentprogress-submission.ts):
-- the row whose key an insert of this submission would repeat. The database refuses such an insert.
abbrev pub uq_studentprogress_submission :
    {N : Type 0} → (String → String → Bool) → Progress N → List Attempt → Option Attempt
uq_studentprogress_submission same progress rows =
    find (has_key same progress.studentid progress.reference progress.starttime) rows

module _ {N : Type 0} (same : String → String → Bool) (content : Content)
    (calendar : Calendar) where
  unfoldable pub create_level_quiz_progress :
      String → Level → Plan → Luck → Progress N → Store N → Result Thrown (Store N)
  unfolding attempt_of record_attempt update_level_quiz_reward add_student_level_quiz_scores
  create_level_quiz_progress id level plan broken progress st = err database_error
  create_level_quiz_progress id level plan raced progress st = err unique_constraint_error
  create_level_quiz_progress id level plan fine progress st =
      let scores = calculate_score progress.passpercentage in
      elim (uq_studentprogress_submission same progress st.attempts) [
        | some existing ↦ err unique_constraint_error
        | none ↦ ok (
            record_attempt same calendar (attempt_of id levelquiz scores progress)
              progress.actualanswers 4 (earns plan)
              (update_level_quiz_reward same content progress.studentid level plan.oldpoints
                progress.starttime)
              (add_student_level_quiz_scores same content progress.studentid level
                progress.starttime scores)
              st)
      ]

  unfoldable pub create_baseline_question_progress :
      String → Luck → Progress N → Store N → Result Thrown (Store N)
  unfolding attempt_of insert set_student_active
  create_baseline_question_progress id broken progress st = err database_error
  create_baseline_question_progress id raced progress st = err unique_constraint_error
  create_baseline_question_progress id fine progress st =
      let scores = calculate_score progress.passpercentage in
      elim (uq_studentprogress_submission same progress st.attempts) [
        | some existing ↦ err unique_constraint_error
        | none ↦ ok (
            set_student_active same calendar progress.studentid progress.reference 5
              progress.starttime
              (insert (attempt_of id baseline scores progress) progress.actualanswers st))
      ]

  -- The transaction of a practice (`gated` is false) or lesson quiz that was passed before.
  unfoldable pub repeat_lesson_activity :
      Config
      → Bool
      → ℕ
      → String
      → Activity
      → Option ℕ
      → ℕ
      → Bool
      → Store N
      → Result Thrown (Store N)
  unfolding update_points set_student_active update_user_reward
  repeat_lesson_activity config gated kind studentid activity oldpoints date fails st =
      let adjusted = record st {
        attempts =
            update_points same config gated studentid activity.id activity.points
              activity.fullpoints st.attempts;
      } in
      let reward =
        update_user_reward same content studentid activity.lessonid activity.points oldpoints
          date in
      let earned = if is_some oldpoints then with_rewards reward adjusted else adjusted in
      if fails
      then err database_error
      else ok (set_student_active same calendar studentid activity.id kind date earned)

  unfoldable pub repeat_level_quiz :
      Config → String → Level → Option ℕ → ℕ → Bool → Store N → Result Thrown (Store N)
  unfolding update_points set_student_active update_level_quiz_reward
  repeat_level_quiz config studentid level oldpoints date fails st =
      let adjusted = record st {
        attempts =
            update_points same config true studentid level.levelid level.quiz_points level.points
              st.attempts;
      } in
      let reward = update_level_quiz_reward same content studentid level oldpoints date in
      let earned = if is_some oldpoints then with_rewards reward adjusted else adjusted in
      if fails
      then err database_error
      else ok (set_student_active same calendar studentid level.levelid 4 date earned)
