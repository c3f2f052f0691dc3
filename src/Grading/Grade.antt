-- ===== src/Grading/Grade.antt =====
-- src/business/grading/index.ts: `gradeAnswer`.
use edtech_lms_rpi_api.Prelude.{
  ℕ, Bool, false, not, ◌&&◌, Option, none, some, List, if◌then◌else◌, eqb, leb,
}
use edtech_lms_rpi_api.Js.{Value, Js, is_nullish}
use edtech_lms_rpi_api.Grading.Options.{GradingOption, parse_options}
use edtech_lms_rpi_api.Grading.Templates.{grade_choice, grade_order, grade_match, grade_blanks}
use edtech_lms_rpi_api.Grading.Answer.{
  AnswerType, choice, order, match, blanks, AnswerV1, selected, ordered, pairs, filled, has_type,
  is_answer_v1, read_answer,
}

pub data Reason : Type 0 where
  no_answer unsupported_template type_mismatch malformed prototype_not_graded : Reason

pub data GradeResult : Type 0 where
  gradable : Bool → GradeResult
  ungradable : Reason → GradeResult

pub record QuestionForGrading (N : Type 0) : Type 0 where
  pub templatetypeid : ℕ
  pub questionoptions : Value N
  pub questioncorrectvalue : Value N
  pub questiondistractors : Value N

abbrev pub unsupported_templates : ℕ → Bool
unsupported_templates t = leb 9 t && leb t 17

abbrev pub prototype_templates : ℕ → Bool
prototype_templates t = leb 18 t && leb t 24

-- `EXPECTED_TYPE[templatetypeid]`
unfoldable pub expected_type : ℕ → Option AnswerType
expected_type t =
    if leb 1 t && leb t 4
    then some choice
    else if leb 5 t && leb t 6
    then some order
    else if eqb t 7
    then some match
    else if eqb t 8
    then some blanks
    else none

module _ (js : Js) where
  open js use {Num}

  unfoldable pub grade_core : List (GradingOption Num) → AnswerV1 Num → Bool
  grade_core options (selected ids) = grade_choice options ids
  grade_core options (ordered ids) = grade_order js options ids
  grade_core options (pairs ps) = grade_match options ps
  grade_core options (filled ids) = grade_blanks js options ids
  grade_core options _ = false

  -- `gradeAnswer` from the check of the answer on, for a template that is graded.
  unfoldable pub grade_expected : AnswerType → Value Num → Value Num → GradeResult
  unfolding grade_core
  grade_expected expected questionoptions answer =
      if is_nullish answer
      then ungradable no_answer
      else if not (is_answer_v1 js answer)
      then ungradable malformed
      else if not (has_type expected answer)
      then ungradable type_mismatch
      else elim (parse_options js questionoptions) [
        | none ↦ ungradable malformed
        | some options ↦ gradable (grade_core options (read_answer js expected answer))
      ]

  unfoldable pub grade_answer : QuestionForGrading Num → Value Num → GradeResult
  unfolding grade_expected expected_type
  grade_answer question answer =
      if unsupported_templates question.templatetypeid
      then ungradable unsupported_template
      else if prototype_templates question.templatetypeid
      then ungradable prototype_not_graded
      else elim (expected_type question.templatetypeid) [
        | none ↦ ungradable unsupported_template
        | some expected ↦ grade_expected expected question.questionoptions answer
      ]
