-- ===== src/Grading/Verdicts.antt =====
-- When src/business/grading/index.ts gives a verdict, and what the verdict is.
use edtech_lms_rpi_api.Prelude.{
  ℕ, ◌≤◌, ◌≡◌, refl, inl, inr, ◌≢◌, ◌↔◌, ◌⊎◌, Bool, true, false, some, List, arith, Option-cases,
}
use edtech_lms_rpi_api.Js.{Value, undefined, null, Js, is_nullish}
use edtech_lms_rpi_api.Grading.Options.{GradingOption, parse_options}
use edtech_lms_rpi_api.Grading.Answer.{AnswerType, has_type, is_answer_v1, read_answer}
use edtech_lms_rpi_api.Grading.Grade.{
  QuestionForGrading, gradable, ungradable, no_answer, unsupported_template, prototype_not_graded,
  expected_type, grade_core, grade_answer,
}

expected_type-range : (t : ℕ) (e : AnswerType) → expected_type t ≡ some e → (1 ≤ t) × (t ≤ 8)
unfolding expected_type
expected_type-range t e h = ground arith

module _ (js : Js) where
  open js use {Num}

  -- What a verdict rests on.
  pub record IsVerdict (question : QuestionForGrading Num) (answer : Value Num) (correct : Bool)
      : Type 0 where
    pub expected : AnswerType
    pub options : List (GradingOption Num)
    pub template : expected_type question.templatetypeid ≡ some expected
    pub shaped : is_answer_v1 js answer ≡ true
    pub typed : has_type expected answer ≡ true
    pub parsed : parse_options js question.questionoptions ≡ some options
    pub verdict : grade_core js options (read_answer js expected answer) ≡ correct

  grade_answer_sound :
      (question : QuestionForGrading Num) (answer : Value Num) (correct : Bool)
      → grade_answer js question answer ≡ gradable correct
      → IsVerdict question answer correct
  unfolding grade_answer
  grade_answer_sound question answer correct h =
      elim (Option-cases (expected_type question.templatetypeid)) [
        | inl gone ↦ ground arith
        | inr (e, template) ↦ elim (Option-cases (parse_options js question.questionoptions)) [
          | inl gone ↦ ground arith
          | inr (options, parsed) ↦ record {
            expected = e;
            options = options;
            template = template;
            shaped = ground arith;
            typed = ground arith;
            parsed = parsed;
            verdict = ground arith;
          }
        ]
      ]

  grade_answer_complete :
      (question : QuestionForGrading Num) (answer : Value Num) (correct : Bool)
      → IsVerdict question answer correct
      → is_nullish answer ≡ false
      → grade_answer js question answer ≡ gradable correct
  unfolding grade_answer
  grade_answer_complete question answer correct v given = ground (
    arith,
    expected_type-range question.templatetypeid v.expected v.template,
    v.template,
    v.shaped,
    v.typed,
    v.parsed,
    v.verdict,
  )

  -- An accepted answer is an object, so it is given.
  pub is_answer_v1-given :
      (answer : Value Num) → is_answer_v1 js answer ≡ true → is_nullish answer ≡ false
  unfolding is_answer_v1
  is_answer_v1-given undefined h = ground arith
  is_answer_v1-given null h = ground arith
  is_answer_v1-given _ h = refl

  -- There is a verdict exactly when the template is one of those that are graded, the answer has
  -- the shape of an `AnswerV1` and the type that the template expects, and the question's options
  -- parse; it is then the verdict of the grader of the answer's type.
  pub grade_answer-eq-gradable_iff :
      (question : QuestionForGrading Num) (answer : Value Num) (correct : Bool)
      → (grade_answer js question answer ≡ gradable correct) ↔ IsVerdict question answer correct
  grade_answer-eq-gradable_iff question answer correct = (
    grade_answer_sound question answer correct,
    λ v. grade_answer_complete question answer correct v (is_answer_v1-given answer v.shaped),
  )

  pub grade_answer-ne-no_answer :
      (question : QuestionForGrading Num) (answer : Value Num)
      → is_nullish answer ≡ false
      → grade_answer js question answer ≢ ungradable no_answer
  unfolding grade_answer
  grade_answer-ne-no_answer question answer h = ground arith

  -- An answer is not graded because its template is a prototype exactly for templates 18 to 24,
  -- and because its template is unsupported exactly for 0, 9 to 17, and from 25 on.
  pub grade_answer_ungraded :
      (question : QuestionForGrading Num) (answer : Value Num)
      → let t = question.templatetypeid in
        ((grade_answer js question answer ≡ ungradable prototype_not_graded)
          ↔ ((18 ≤ t) × (t ≤ 24)))
        × ((grade_answer js question answer ≡ ungradable unsupported_template)
            ↔ ((t ≡ 0) ⊎ (((9 ≤ t) × (t ≤ 17)) ⊎ (25 ≤ t))))
  unfolding grade_answer
  grade_answer_ungraded question answer =
      ((λ h. ground arith, λ h. ground arith), (λ h. ground arith, λ h. ground arith))
