-- ===== src/Tests/Results.antt =====
-- Runs of the saves of results at concrete inputs.
use edtech_lms_rpi_api.Prelude.{
  value_or, ℕ, ◌*◌, ◌≤◌, ◌≡◌, refl, ◌==◌, if◌then◌else◌, Bool, true, false, none, some, List, [],
  ◌∷◌, String, arith, Result, ok,
}
use edtech_lms_rpi_api.Submission.{Item, enforce}
use edtech_lms_rpi_api.Score.{
  Tables, lessonquiz, levelquiz, get_lesson_quiz_gradable_questions,
  get_level_quiz_gradable_questions, gradable_questions, score_lesson_quiz, score_level_quiz,
  quiz_pass_result, active_ids, correct_ids,
}
use edtech_lms_rpi_api.Results.{Store, Config, is_pass, has_tried}
use edtech_lms_rpi_api.Results.Save.{Thrown, fine, Calendar}
use edtech_lms_rpi_api.Results.Create.{Activity}
use edtech_lms_rpi_api.Results.Graded.{Request}
use edtech_lms_rpi_api.Results.Handlers.{
  Activities, save_lesson_quiz_result, save_level_quiz_result,
}
use edtech_lms_rpi_api.Results.Handlers.Verified.{
  active_count, right_count, strict_pass, strict_level_pass,
}
use edtech_lms_rpi_api.Tests.Data.{runtime, tables, row, honest, cheating, evaluation}
use edtech_lms_rpi_api.Tests.Rewards.{content, nothing, level_one}

abbrev pub same_id : String → String → Bool
same_id a b = a == b

abbrev pub calendar : Calendar
calendar = record { today = λ date. date; tomorrow = λ date. date }

abbrev pub empty_store : Store ℕ
empty_store = record { attempts = []; answers = []; rewards = nothing; actives = [] }

abbrev pub strict : Config
strict = record { mode = enforce; require_graded_answers = true }

abbrev pub quiz_activity : Activity
quiz_activity = record { id = "quiz"; lessonid = "l1"; points = 10; fullpoints = 10 }

abbrev pub practice_activity : Activity
practice_activity = record { id = "practice"; lessonid = "l1"; points = 5; fullpoints = 5 }

abbrev pub activities : Activities
activities = record {
  practice = λ id. if id == "practice" then some practice_activity else none;
  quiz = λ id. if id == "quiz" then some quiz_activity else none;
  level = λ id. some level_one;
  has_baseline = λ id. false;
}

abbrev pub request_of : List (Item ℕ) → Request ℕ
request_of result = record { result = result; starttime = 5; endtime = none }

abbrev pub save_quiz : List (Item ℕ) → Result Thrown (Store ℕ)
save_quiz result =
    save_lesson_quiz_result runtime same_id tables strict content calendar activities false
      (some "s") "id" "quiz" (request_of result) fine empty_store empty_store

-- A right answer passes; a claim in front of a wrong answer does not.
quiz_runs :
    (is_pass same_id strict true "s" "quiz" (value_or empty_store (save_quiz honest)).attempts
      ≡ true)
    × (is_pass same_id strict true "s" "quiz" (value_or empty_store (save_quiz cheating)).attempts
        ≡ false)
unfolding save_lesson_quiz_result evaluation has_tried get_lesson_quiz_gradable_questions
    gradable_questions score_lesson_quiz quiz_pass_result active_ids correct_ids
quiz_runs = (refl, refl)

pub save_quiz_ok : save_quiz honest ≡ ok (value_or empty_store (save_quiz honest))
unfolding save_lesson_quiz_result evaluation
save_quiz_ok = refl

few : active_count runtime same_id tables strict lessonquiz "quiz" ≡ 1
unfolding evaluation active_ids
few = refl

strict_pass_example :
    4 * active_count runtime same_id tables strict lessonquiz "quiz"
    ≤ 5 * right_count runtime same_id tables strict lessonquiz "quiz" (request_of honest)
unfolding is_pass
strict_pass_example =
    strict_pass runtime same_id tables strict content calendar activities false "s" "id" "quiz"
      (request_of honest) fine empty_store empty_store (value_or empty_store (save_quiz honest))
      (ground (arith, few)) (ground (arith, few)) refl refl refl save_quiz_ok quiz_runs.0

abbrev level_tables : Tables ℕ
level_tables = record {
  lessonquizquestions = [];
  levelquizquestions = row "q1" "v1" true 1 ∷ [];
  baselinequestions = [];
  lessonpracticequestions = [];
}

abbrev save_level : List (Item ℕ) → Result Thrown (Store ℕ)
save_level result =
    save_level_quiz_result runtime same_id level_tables strict content calendar activities
      (some "s") "id" "v1" (request_of result) fine empty_store empty_store

level_quiz_runs :
    (save_level honest ≡ ok (value_or empty_store (save_level honest)))
    × (is_pass same_id strict true "s" "v1" (value_or empty_store (save_level honest)).attempts
        ≡ true)
    × (is_pass same_id strict true "s" "v1" (value_or empty_store (save_level cheating)).attempts
        ≡ false)
unfolding save_level_quiz_result evaluation has_tried get_level_quiz_gradable_questions
    gradable_questions score_level_quiz quiz_pass_result active_ids correct_ids
level_quiz_runs = (refl, refl, refl)

one_active : active_count runtime same_id level_tables strict levelquiz "v1" ≡ 1
unfolding evaluation active_ids
one_active = refl

strict_level_pass_example :
    4 * active_count runtime same_id level_tables strict levelquiz "v1"
    ≤ 5 * right_count runtime same_id level_tables strict levelquiz "v1" (request_of honest)
unfolding is_pass
strict_level_pass_example =
    strict_level_pass runtime same_id level_tables strict content calendar activities "s" "id" "v1"
      (request_of honest) fine empty_store empty_store (value_or empty_store (save_level honest))
      (ground (arith, one_active)) (ground (arith, one_active)) refl refl refl level_quiz_runs.0
      level_quiz_runs.1
