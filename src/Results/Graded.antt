-- ===== src/Results/Graded.antt =====
-- src/modules/result/result.controller.ts: what the four handlers make of a submission before they
-- save it.
use edtech_lms_rpi_api.Prelude.{ℕ, Bool, false, not, ◌&&◌, Option, List, String, if◌then◌else◌}
use edtech_lms_rpi_api.Js.{Js}
use edtech_lms_rpi_api.Submission.{Item, GradeSubmissionResult, is_enforce, grade_submission_items}
use edtech_lms_rpi_api.Score.{
  Tables, ResultContainer, lessonpractice, PassResult, questions_of, score_of,
}
use edtech_lms_rpi_api.Score.Server.{to_answers}
use edtech_lms_rpi_api.Score.Container.{confine_to_container}
use edtech_lms_rpi_api.Results.{Config, is_strict}
use edtech_lms_rpi_api.Results.Save.{Progress}

-- The body of a request: the items, and the times; a start time that is left out is the time of the
-- request. The items' `iscorrect` is a Boolean, and the property `question`, which the handlers take
-- off, is never stored.
pub record Request (N : Type 0) : Type 0 where
  pub result : List (Item N)
  pub starttime : ℕ
  pub endtime : Option ℕ

-- REQUIRE_GRADED_ANSWERS in enforce mode: what is not verified is no pass; practice is never gated.
unfoldable pub gated_pass : ResultContainer → Config → Bool → Bool → Bool
gated_pass lessonpractice config verified ispass = ispass
gated_pass kind config verified ispass = if is_strict config && not verified then false else ispass

module _ (js : Js) (same : String → String → Bool) (db : Tables js.Num) (config : Config) where
  open js use {Num}

  -- The items of the container, graded against its active questions.
  unfoldable pub graded_items :
      ResultContainer → String → List (Item Num) → GradeSubmissionResult js
  unfolding confine_to_container
  graded_items kind container result =
      grade_submission_items js (confine_to_container same db kind container result)
        (questions_of same kind db container) config.mode

  -- In enforce mode only the first item of a question is scored.
  unfoldable pub scored_result : ResultContainer → String → List (Item Num) → PassResult
  unfolding graded_items to_answers
  scored_result kind container result =
      let graded = graded_items kind container result in
      score_of same kind db container
        (to_answers (if is_enforce config.mode then graded.scoring_items else graded.items))

  -- `earned` is the points of a pass and of a failed attempt.
  unfoldable pub progress_of :
      ResultContainer → String → String → (Bool → ℕ) → ℕ → Request Num → Progress Num
  unfolding graded_items scored_result gated_pass
  progress_of kind studentid container earned fullpoints request =
      let graded = graded_items kind container request.result in
      let score = scored_result kind container request.result in
      let ispass = gated_pass kind config graded.verified score.ispass in
      record {
        studentid = studentid;
        reference = container;
        starttime = request.starttime;
        endtime = request.endtime;
        ispass = ispass;
        verified = graded.verified;
        marks = score.marks;
        points = earned ispass;
        fullpoints = fullpoints;
        passpercentage = score.percentage;
        actualanswers = graded.items;
      }
