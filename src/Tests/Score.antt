-- ===== src/Tests/Score.antt =====
-- Runs of the scorers, and their theorems at concrete inputs.
use edtech_lms_rpi_api.Prelude.{
  ◌≤◌, ◌*◌, ◌≡◌, refl, ◌↔◌, Bool, true, false, [], ◌∷◌, String, ◌==◌, arith, contains, set_of,
  length,
}
use edtech_lms_rpi_api.Submission.{enforce, grade_submission_items}
use edtech_lms_rpi_api.Score.{
  ScoredAnswer, lessonquiz, quiz_pass_result, practice_pass_result, active_ids, correct_ids,
  gradable_questions, score_lesson_quiz, score_practice, score_of, questions_of, result_of,
  get_lesson_quiz_gradable_questions,
}
use edtech_lms_rpi_api.Score.Pass.{ispass_iff}
use edtech_lms_rpi_api.Score.Marks.{is_answered, AgreeOn, score_ext, marks-le-active}
use edtech_lms_rpi_api.Score.Server.{to_answers, server_count, verified_scores}
use edtech_lms_rpi_api.Tests.Data.{evaluation, runtime, honest, tables}

abbrev same_id : String → String → Bool
same_id a b = a == b

abbrev says : Bool → String → ScoredAnswer
says iscorrect id = record { iscorrect = iscorrect; questionid = id }

-- Two thirds are 66.67 %, and a quiz with nothing active fails where a practice passes.
pass_runs :
    (quiz_pass_result 2 3 ≡ record { marks = 2; percentage = 6667; ispass = false })
    × (quiz_pass_result 4 5 ≡ record { marks = 4; percentage = 8000; ispass = true })
    × ((quiz_pass_result 7 0).ispass ≡ false)
    × ((practice_pass_result 0 0).ispass ≡ true)
unfolding quiz_pass_result practice_pass_result
pass_runs = (refl, refl, refl, refl)

score_runs :
    ((score_lesson_quiz same_id tables "quiz"
        (says true "q1" ∷ says true "q1" ∷ says true "q3" ∷ []))
      ≡ record { marks = 1; percentage = 10000; ispass = true })
    × ((score_practice same_id tables "practice" (says false "p1" ∷ [])).ispass ≡ false)
unfolding score_lesson_quiz score_practice active_ids correct_ids quiz_pass_result
    practice_pass_result set_of contains
score_runs = (refl, refl)

ispass_iff_example :
    (((quiz_pass_result 4 5).ispass ≡ true) ↔ (4 * 5 ≤ 5 * 4))
    × (((practice_pass_result 4 5).ispass ≡ true) ↔ (4 * 5 ≤ 5 * 4))
ispass_iff_example = ispass_iff 4 5 (omega arith) (omega arith)

four_of_five : (quiz_pass_result 4 5).ispass ≡ true
unfolding quiz_pass_result
four_of_five = refl

agree :
    AgreeOn
      (active_ids same_id "quiz" tables.lessonquizquestions)
      (says true "q1" ∷ [])
      (says true "q1" ∷ says true "q1" ∷ [])
unfolding is_answered
agree id h = ground arith

score_ext_example :
    score_of same_id lessonquiz tables "quiz" (says true "q1" ∷ [])
    ≡ score_of same_id lessonquiz tables "quiz" (says true "q1" ∷ says true "q1" ∷ [])
score_ext_example = score_ext same_id tables lessonquiz "quiz" _ _ agree

marks-le-active_example :
    (score_of same_id lessonquiz tables "quiz" (says true "q1" ∷ [])).marks
    ≤ length (active_ids same_id "quiz" tables.lessonquizquestions)
marks-le-active_example = marks-le-active same_id tables lessonquiz "quiz" (says true "q1" ∷ [])

honest-verified :
    (grade_submission_items runtime honest
      (questions_of same_id lessonquiz tables "quiz")
      enforce).verified
    ≡ true
unfolding evaluation get_lesson_quiz_gradable_questions gradable_questions
honest-verified = refl

verified_scores_example :
    score_of same_id lessonquiz tables "quiz" (
      to_answers
        (grade_submission_items runtime honest
          (questions_of same_id lessonquiz tables "quiz")
          enforce).scoring_items)
    ≡ result_of lessonquiz
        (server_count runtime same_id
          (questions_of same_id lessonquiz tables "quiz")
          (active_ids same_id "quiz" tables.lessonquizquestions)
          honest)
        (length (active_ids same_id "quiz" tables.lessonquizquestions))
verified_scores_example =
    verified_scores runtime same_id lessonquiz tables "quiz" honest enforce honest-verified
