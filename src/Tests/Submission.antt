-- ===== src/Tests/Submission.antt =====
-- Runs of the grading of a submission, and its theorems at concrete inputs.
use mathlib.Core.Option
use edtech_lms_rpi_api.Prelude.{
  ◌≡◌, refl, ◌↔◌, ◌⊎◌, Bool, true, false, some, [], ◌∷◌, ◌++◌, map, String, arith, contains,
  IsNodup, All, eq_iff, length,
}
use edtech_lms_rpi_api.Js.{lookup, is_nullish}
use edtech_lms_rpi_api.Grading.Answer.{is_answer_v1}
use edtech_lms_rpi_api.Grading.Grade.{
  gradable, ungradable, unsupported_template, prototype_not_graded, grade_answer,
}
use edtech_lms_rpi_api.Submission.{enforce, GradedItem, grade_item, grade_submission_items}
use edtech_lms_rpi_api.Submission.Reference.{first_per_id, scoring_items-eq-first_per_id}
use edtech_lms_rpi_api.Submission.Counted.{
  IsRepeat, graded_ids, item_ids, scoring_items-append, scoring_items_once,
}
use edtech_lms_rpi_api.Submission.Trust.{item_of, with_claim, verified-server_verdict}
use edtech_lms_rpi_api.Submission.Claims.{enforced_iscorrect, verified-with_claim}
use edtech_lms_rpi_api.Tests.Data.{
  evaluation, runtime, question, choose, item, active, honest, cheating,
}

-- The honest submission is verified; the one that rides on a claim is not, and is scored by its
-- first item alone.
submission_runs :
    ((grade_submission_items runtime honest active enforce).verified ≡ true)
    × ((grade_submission_items runtime (honest ++ cheating) active enforce).verified ≡ true)
    × ((grade_submission_items runtime cheating active enforce).verified ≡ false)
    × (map
          (λ g. g.iscorrect)
          (grade_submission_items runtime (honest ++ cheating) active enforce).items
        ≡ true ∷ true ∷ false ∷ [])
    × (length (grade_submission_items runtime (honest ++ cheating) active enforce).scoring_items
        ≡ 1)
unfolding evaluation
submission_runs = (refl, refl, refl, refl, refl)

q1-active : lookup "q1" active ≡ some (question 1)
unfolding evaluation
q1-active = refl

scoring_items-eq-first_per_id_example :
    (grade_submission_items runtime cheating active enforce).scoring_items
    ≡ first_per_id [] (map (grade_item runtime enforce active) cheating)
scoring_items-eq-first_per_id_example =
    scoring_items-eq-first_per_id runtime cheating active enforce

cheating-repeats : All (IsRepeat (item_ids honest)) cheating
unfolding contains
cheating-repeats =
    ((λ id e. ground (arith, eq_iff "q1" id)), ((λ id e. ground (arith, eq_iff "q1" id)), tt))

scoring_items-append_example :
    (grade_submission_items runtime (honest ++ cheating) active enforce).scoring_items
    ≡ (grade_submission_items runtime honest active enforce).scoring_items
scoring_items-append_example =
    scoring_items-append runtime active enforce honest cheating cheating-repeats

scoring_items_once_example :
    IsNodup (graded_ids (grade_submission_items runtime cheating active enforce).scoring_items)
    × ((id : String)
        → contains
            (graded_ids (grade_submission_items runtime cheating active enforce).scoring_items)
            id
          ≡ contains (item_ids cheating) id)
scoring_items_once_example = scoring_items_once runtime active enforce cheating

verified-server_verdict_example :
    (g : GradedItem runtime.Num) × (item_of "q1"
        (grade_submission_items runtime honest active enforce).scoring_items
      ≡ some g)
    × (enforce ≡ enforce)
    × (grade_answer runtime (question 1) g.raw.answer ≡ gradable g.iscorrect)
verified-server_verdict_example =
    verified-server_verdict runtime active honest enforce "q1" (question 1) submission_runs.0
      q1-active

enforced_iscorrect_example :
    ((grade_item runtime enforce active (item "q1" true (choose "b"))).iscorrect ≡ true) ↔ (
      (grade_answer runtime (question 1) (choose "b") ≡ gradable true)
      ⊎ (◌≡◌ {A = Bool} true true
          × ((is_nullish (choose "b") ≡ true)
              ⊎ ((is_answer_v1 runtime (choose "b") ≡ true)
                  × ((grade_answer runtime (question 1) (choose "b")
                        ≡ ungradable unsupported_template)
                      ⊎ (grade_answer runtime (question 1) (choose "b")
                          ≡ ungradable prototype_not_graded))))))
enforced_iscorrect_example =
    enforced_iscorrect runtime active (item "q1" true (choose "b")) "q1" (question 1) refl q1-active

verified-with_claim_example :
    ((grade_submission_items runtime
        (map (with_claim (λ raw. true)) honest)
        active
        enforce).verified
      ≡ true)
    × (Option.map
          (λ (g : GradedItem runtime.Num). g.iscorrect)
          (item_of "q1"
            (grade_submission_items runtime
              (map (with_claim (λ raw. true)) honest)
              active
              enforce).scoring_items)
        ≡ Option.map
            (λ (g : GradedItem runtime.Num). g.iscorrect)
            (item_of "q1" (grade_submission_items runtime honest active enforce).scoring_items))
verified-with_claim_example =
    verified-with_claim runtime active (λ raw. true) honest "q1" (question 1) submission_runs.0
      q1-active
