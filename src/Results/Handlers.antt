-- ===== src/Results/Handlers.antt =====
-- src/modules/result/result.controller.ts: the four handlers that take a learner's result. `seen` is
-- what is stored when the handler reads, `now` when it writes. The logs, the access guards in front of
-- the handlers and the table of daily points are left out.
pub mod Verified
pub mod Resent
pub mod ResentQuiz
use edtech_lms_rpi_api.Prelude.{
  ℕ, Bool, true, false, Option, none, some, List, String, if◌then◌else◌, Result, ok, err,
}
use edtech_lms_rpi_api.Js.{Js}
use edtech_lms_rpi_api.Progress.{lesson_quiz_attempt_points}
use edtech_lms_rpi_api.Score.{Tables, lessonpractice, lessonquiz, levelquiz, baseline}
use edtech_lms_rpi_api.Rewards.{Level, Content}
use edtech_lms_rpi_api.Results.{Store, Config, is_pass, get_old_points, get_pass_old_points}
use edtech_lms_rpi_api.Results.Save.{
  Luck, Thrown, database_error, query_error, not_found, is_broken, Calendar, plan_attempt,
  plan_quiz, create_lesson_practice_progress, create_lesson_quiz_progress,
}
use edtech_lms_rpi_api.Results.Create.{
  Activity, create_level_quiz_progress, create_baseline_question_progress, repeat_lesson_activity,
  repeat_level_quiz,
}
use edtech_lms_rpi_api.Results.Graded.{Request, progress_of}

-- getlessonpractice, getlessonquiz, getlevelquiz and getbaselinequestion, by the id in the path.
pub record Activities : Type 0 where
  pub practice : String → Option Activity
  pub quiz : String → Option Activity
  pub level : String → Option Level
  pub has_baseline : String → Bool

module _ (js : Js) (same : String → String → Bool) (db : Tables js.Num) (config : Config)
    (content : Content) (calendar : Calendar) (activities : Activities) where
  open js use {Num}

  -- `id` is the new attempt's.
  unfoldable pub save_lesson_practice_result :
      Option String
      → String
      → String
      → Request Num
      → Luck
      → Store Num
      → Store Num
      → Result Thrown (Store Num)
  unfolding is_pass get_old_points progress_of plan_attempt create_lesson_practice_progress
      repeat_lesson_activity
  save_lesson_practice_result student id lessonpracticeid request luck seen now =
      elim (activities.practice lessonpracticeid) [
        | none ↦ err not_found
        | some activity ↦ elim student [
          | none ↦ err query_error
          | some studentid ↦
              if is_pass same config false studentid lessonpracticeid seen.attempts
              then repeat_lesson_activity same content calendar config false 2 studentid activity
                  (get_old_points same studentid activity.id activity.points seen.attempts)
                  request.starttime (is_broken luck) now
              else let progress =
                  progress_of js same db config lessonpractice studentid lessonpracticeid
                    (λ ispass. activity.points) activity.fullpoints request in
                create_lesson_practice_progress same content calendar id activity.lessonid
                  (plan_attempt same seen.attempts progress) luck progress now
        ]
      ]

  -- `passrule` is what lesson_quiz_pass_required answers.
  unfoldable pub save_lesson_quiz_result :
      Bool
      → Option String
      → String
      → String
      → Request Num
      → Luck
      → Store Num
      → Store Num
      → Result Thrown (Store Num)
  unfolding is_pass get_old_points get_pass_old_points lesson_quiz_attempt_points progress_of
      plan_quiz create_lesson_quiz_progress repeat_lesson_activity
  save_lesson_quiz_result passrule student id lessonquizid request luck seen now =
      elim (activities.quiz lessonquizid) [
        | none ↦ err not_found
        | some activity ↦ elim student [
          | none ↦ err query_error
          | some studentid ↦
              if is_pass same config true studentid lessonquizid seen.attempts
              then repeat_lesson_activity same content calendar config true 3 studentid activity
                  (if passrule
                    then get_pass_old_points same config studentid activity.id activity.points
                        seen.attempts
                    else get_old_points same studentid activity.id activity.points seen.attempts)
                  request.starttime (is_broken luck) now
              else let progress =
                  progress_of js same db config lessonquiz studentid lessonquizid
                    (λ ispass. lesson_quiz_attempt_points passrule ispass activity.points)
                    activity.fullpoints request in
                create_lesson_quiz_progress same content calendar id activity.lessonid
                  (plan_quiz same passrule seen.attempts progress) luck progress now
        ]
      ]

  unfoldable pub save_level_quiz_result :
      Option String
      → String
      → String
      → Request Num
      → Luck
      → Store Num
      → Store Num
      → Result Thrown (Store Num)
  unfolding is_pass get_old_points progress_of plan_attempt create_level_quiz_progress
      repeat_level_quiz
  save_level_quiz_result student id levelid request luck seen now =
      elim (activities.level levelid) [
        | none ↦ err not_found
        | some level ↦ elim student [
          | none ↦ err query_error
          | some studentid ↦
              if is_pass same config true studentid levelid seen.attempts
              then repeat_level_quiz same content calendar config studentid level
                  (get_old_points same studentid level.levelid level.quiz_points seen.attempts)
                  request.starttime (is_broken luck) now
              else let progress =
                  progress_of js same db config levelquiz studentid levelid
                    (λ ispass. level.quiz_points) level.quiz_points request in
                create_level_quiz_progress same content calendar id level
                  (plan_attempt same seen.attempts progress) luck progress now
        ]
      ]

  unfoldable pub save_baseline_result :
      Option String → String → String → Request Num → Luck → Store Num → Result Thrown (Store Num)
  unfolding progress_of create_baseline_question_progress
  save_baseline_result student id curriculumbaselineid request luck now =
      if activities.has_baseline curriculumbaselineid
      then elim student [
        | none ↦ err database_error
        | some studentid ↦
            let progress =
              progress_of js same db config baseline studentid curriculumbaselineid (λ ispass. 0) 0
                request in
            create_baseline_question_progress same content calendar id luck progress now
      ]
      else err not_found
