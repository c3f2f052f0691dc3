-- ===== src/Tests/Grading.antt =====
-- Runs of the graders, and their theorems at concrete inputs.
use edtech_lms_rpi_api.Prelude.{
  any, List, ℕ, ◌≤◌, ◌<◌, ◌≡◌, refl, ◌↔◌, ◌⊎◌, true, false, ◌&&◌, ◌||◌, some, [], ◌∷◌, String, leb,
  length, every, IsNodup, All,
}
use edtech_lms_rpi_api.Js.{undefined, Items, arr, items, lookup}
use edtech_lms_rpi_api.Grading.Options.{parse_text, parse_options}
use edtech_lms_rpi_api.Grading.Templates.{grade_choice, grade_match, grade_order, grade_blanks}
use edtech_lms_rpi_api.Grading.Grade.{
  gradable, ungradable, no_answer, prototype_not_graded, unsupported_template, grade_answer,
}
use edtech_lms_rpi_api.Grading.Choices.{SameMembers, marked, grade_choice_iff, grade_match_iff}
use edtech_lms_rpi_api.Grading.Ordering.{
  is_marked, IsInSequence, HasFiniteSequences, grade_order_iff, grade_blanks-eq,
}
use edtech_lms_rpi_api.Grading.Parsing.{IsUsable, parse_options_valid}
use edtech_lms_rpi_api.Grading.Verdicts.{
  IsVerdict, grade_answer-eq-gradable_iff, grade_answer_ungraded,
}
use edtech_lms_rpi_api.Grading.Prototypes.{
  grade_f_option1, grade_f_option4, usable_text, value_text,
}
use edtech_lms_rpi_api.Grading.Typed.{overall, is_wrong, is_missing, typed_check, typed_graders-eq}
use edtech_lms_rpi_api.Tests.Data.{
  evaluation, runtime, runtime-IsOrdered, two_options, two_parsed, question, choose,
}

grading_runs :
    (grade_answer runtime (question 1) (choose "a") ≡ gradable true)
    × (grade_answer runtime (question 1) (choose "b") ≡ gradable false)
    × (grade_answer runtime (question 1) undefined ≡ ungradable no_answer)
    × (grade_answer runtime (question 19) (choose "a") ≡ ungradable prototype_not_graded)
unfolding evaluation
grading_runs = (refl, refl, refl, refl)

grade_choice_iff_example :
    (grade_choice two_parsed ("a" ∷ []) ≡ true)
    ↔ (IsNodup ("a" ∷ []) × SameMembers ("a" ∷ []) (marked two_parsed))
grade_choice_iff_example = grade_choice_iff two_parsed ("a" ∷ [])

grade_match_iff_example :
    (grade_match two_parsed (("a", "a") ∷ ("b", "b") ∷ []) ≡ true)
    ↔ All
        (λ o. lookup o.questionoptionid (("a", "a") ∷ ("b", "b") ∷ []) ≡ some o.questionoptionid)
        two_parsed
grade_match_iff_example = grade_match_iff two_parsed (("a", "a") ∷ ("b", "b") ∷ [])

two_parsed-finite : HasFiniteSequences runtime two_parsed
two_parsed-finite id s e = refl

grade_order_iff_example : (grade_order runtime two_parsed ("a" ∷ "b" ∷ []) ≡ true) ↔ (
    (length {A = String} ("a" ∷ "b" ∷ []) ≡ 2)
    × IsNodup ("a" ∷ "b" ∷ [])
    × IsInSequence runtime two_parsed ("a" ∷ "b" ∷ []))
grade_order_iff_example =
    grade_order_iff runtime two_parsed runtime-IsOrdered two_parsed-finite ("a" ∷ "b" ∷ [])

ordered_right : grade_order runtime two_parsed ("a" ∷ "b" ∷ []) ≡ true
unfolding evaluation
ordered_right = refl

grade_blanks-eq_example : grade_blanks runtime two_parsed ("a" ∷ "b" ∷ []) ≡ (
    grade_order runtime two_parsed ("a" ∷ "b" ∷ [])
    && (leb 2 1 || every (is_marked runtime two_parsed) ("a" ∷ "b" ∷ [])))
grade_blanks-eq_example = grade_blanks-eq runtime two_parsed ("a" ∷ "b" ∷ [])

two_options_parse : parse_options runtime two_options ≡ some two_parsed
unfolding evaluation
two_options_parse = refl

parse_options_valid_example :
    (xs : Items ℕ) × (parse_text runtime two_options ≡ some (arr xs))
    × (length two_parsed ≡ length (items xs))
    × (0 < length two_parsed)
    × All (IsUsable runtime) two_parsed
parse_options_valid_example = parse_options_valid runtime two_options two_parsed two_options_parse

grade_answer-eq-gradable_iff_example :
    (grade_answer runtime (question 1) (choose "a") ≡ gradable true)
    ↔ IsVerdict runtime (question 1) (choose "a") true
grade_answer-eq-gradable_iff_example =
    grade_answer-eq-gradable_iff runtime (question 1) (choose "a") true

grade_answer_ungraded_example :
    ((grade_answer runtime (question 19) (choose "a") ≡ ungradable prototype_not_graded)
      ↔ ((18 ≤ 19) × (19 ≤ 24)))
    × ((grade_answer runtime (question 19) (choose "a") ≡ ungradable unsupported_template)
        ↔ (◌≡◌ {A = ℕ} 19 0 ⊎ (((9 ≤ 19) × (19 ≤ 17)) ⊎ (25 ≤ 19))))
grade_answer_ungraded_example = grade_answer_ungraded runtime (question 19) (choose "a")

abbrev typed_a : List (String × String)
typed_a = ("a", "one") ∷ []

typed_graders-eq_example :
    (grade_f_option1 runtime two_parsed typed_a
      ≡ overall
          (any
            (λ o. is_wrong (typed_check runtime (λ o. usable_text o.questionoptiontext) typed_a o))
            two_parsed)
          (any
            (λ o.
              is_missing (typed_check runtime (λ o. usable_text o.questionoptiontext) typed_a o))
            two_parsed))
    × (grade_f_option4 runtime two_parsed typed_a
        ≡ overall
            (any (λ o. is_wrong (typed_check runtime (value_text runtime) typed_a o)) two_parsed)
            (any (λ o. is_missing (typed_check runtime (value_text runtime) typed_a o)) two_parsed))
typed_graders-eq_example = typed_graders-eq runtime two_parsed typed_a
