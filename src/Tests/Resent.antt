-- ===== src/Tests/Resent.antt =====
-- Practices and lesson quizzes that are submitted twice, at concrete inputs.
use edtech_lms_rpi_api.Prelude.{
  value_or, ℕ, ◌≡◌, refl, Bool, true, false, Option, none, some, List, [], ◌∷◌, String, Result,
}
use edtech_lms_rpi_api.Submission.{Item}
use edtech_lms_rpi_api.Score.{
  lessonquiz, gradable_questions, get_practice_gradable_questions, score_practice,
  practice_pass_result, active_ids, correct_ids,
}
use edtech_lms_rpi_api.Rewards.{change}
use edtech_lms_rpi_api.Results.{
  counted_pass_clause, Attempt, get_old_points, newest, Store, is_pass, has_tried,
}
use edtech_lms_rpi_api.Results.Save.{update_points, Thrown, fine}
use edtech_lms_rpi_api.Results.Create.{Activity}
use edtech_lms_rpi_api.Results.Handlers.{save_lesson_practice_result}
use edtech_lms_rpi_api.Tests.Data.{runtime, tables, item, choose, honest, evaluation}
use edtech_lms_rpi_api.Tests.Rewards.{content}
use edtech_lms_rpi_api.Tests.Results.{
  calendar, empty_store, same_id, strict, activities, save_quiz, request_of,
}

-- The id of what a query finds.
abbrev id_found : Option Activity → String
id_found none = ""
id_found (some activity) = activity.id

abbrev quiz_saved : Store ℕ
quiz_saved = value_or empty_store (save_quiz honest)

abbrev practised : List (Item ℕ)
practised = item "p1" false (choose "a") ∷ []

abbrev save_practice : Result Thrown (Store ℕ)
save_practice =
    save_lesson_practice_result runtime same_id tables strict content calendar activities (some "s")
      "id" "practice" (request_of practised) fine empty_store empty_store

abbrev practice_saved : Store ℕ
practice_saved = value_or empty_store save_practice

practice_passed : is_pass same_id strict false "s" "practice" practice_saved.attempts ≡ true
unfolding save_lesson_practice_result evaluation get_practice_gradable_questions gradable_questions
    score_practice practice_pass_result active_ids correct_ids has_tried
practice_passed = refl

abbrev attempt : String → ℕ → Bool → ℕ → Attempt
attempt id starttime ispass points = record {
  studentprogressid = id;
  progresstype = lessonquiz;
  studentid = "s";
  studentprogressreferenceid = "quiz";
  starttime = starttime;
  endtime = none;
  ispass = ispass;
  verified = true;
  marks = 1;
  points = some points;
  fullpoints = points;
  resultpercentage = 10000;
  scores = 0;
}

-- A pass that is dated before a failed attempt of fewer points: those are taken for the old points, also
-- after the pass has its new points.
late_pass_run :
    get_old_points same_id "s" "quiz" 20 (
      update_points same_id strict true "s" "quiz" 20 20
        (attempt "a" 10 false 10 ∷ attempt "b" 5 true 20 ∷ []))
    ≡ some 10
unfolding get_old_points newest update_points change counted_pass_clause
late_pass_run = refl
