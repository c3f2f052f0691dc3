-- ===== src/Tests/Data.antt =====
-- A concrete runtime, and concrete questions, items and tables.
use edtech_lms_rpi_api.Prelude.{
  ℕ, ◌+◌, ◌*◌, Bool, true, false, none, some, List, [], ◌∷◌, String, eqb, ltb, leb, arith, contains,
  set_of,
}
use edtech_lms_rpi_api.Js.{
  Value, undefined, null, bool, num, str, arr, obj, nil, cons, end, field, Js, property, lookup,
}
use edtech_lms_rpi_api.Grading.Options.{
  GradingOption, as_correct_flag, as_number, as_numeric_string, parse_options,
}
use edtech_lms_rpi_api.Grading.Templates.{grade_choice, grade_order}
use edtech_lms_rpi_api.Grading.Answer.{is_answer_v1, read_answer}
use edtech_lms_rpi_api.Grading.Ordering.{IsOrdered}
use edtech_lms_rpi_api.Grading.Grade.{QuestionForGrading, grade_answer}
use edtech_lms_rpi_api.Submission.{Item, grade_submission_items}
use edtech_lms_rpi_api.Score.{QuestionRow, Tables}

-- Natural numbers for the runtime's numbers; no text parses, and Unicode changes nothing.
abbrev pub runtime : Js
runtime = record {
  Num = ℕ;
  num_eq = eqb;
  num_lt = ltb;
  num_le = leb;
  zero = 0;
  one = 1;
  max_safe_integer = 9007199254740991;
  abs = λ n. n;
  add = λ a b. a + b;
  mul = λ a b. a * b;
  is_finite = λ n. true;
  is_integer = λ n. true;
  of_text = λ s. 0;
  text_of = λ n. "";
  parse_json = λ s. none;
  nfc = λ s. s;
  to_lower = λ s. s;
}

pub runtime-IsOrdered : IsOrdered runtime
runtime-IsOrdered = record {
  not_lt_trans = λ a b c fa fb fc h k. ground arith;
  zero_finite = ground arith;
}

-- What the runs of the graders and of a submission compute with.
unfoldable pub evaluation : Unit {0}
unfolding grade_submission_items grade_answer grade_choice grade_order is_answer_v1 read_answer
    parse_options as_correct_flag as_number as_numeric_string property lookup set_of contains
evaluation = tt

abbrev pub option : String → Bool → ℕ → Value ℕ
option id correct sequence = obj (
    field "questionoptionid" (str id) (
      field "questionoptioniscorrect" (bool correct)
        (field "questionoptionsequence" (num sequence) end)))

abbrev pub two_options : Value ℕ
two_options = arr (cons (option "a" true 1) (cons (option "b" false 2) nil))

abbrev pub question : ℕ → QuestionForGrading ℕ
question t = record {
  templatetypeid = t;
  questionoptions = two_options;
  questioncorrectvalue = null;
  questiondistractors = null;
}

abbrev pub parsed_option : String → Bool → ℕ → GradingOption ℕ
parsed_option id correct sequence = record {
  questionoptionid = id;
  questionoptiontext = none;
  questionoptioniscorrect = correct;
  questionoptionsequence = some sequence;
  questionoptionvalue = none;
  questionoptionnumeratorvalue = none;
  questionoptionnumeratorisstatic = false;
  questionoptiondenominatorvalue = none;
  questionoptiondenominatorisstatic = false;
  questionoptionisfraction = false;
  questionoptionistext = false;
}

abbrev pub two_parsed : List (GradingOption ℕ)
two_parsed = parsed_option "a" true 1 ∷ parsed_option "b" false 2 ∷ []

abbrev pub choose : String → Value ℕ
choose id = obj (
    field "v" (num 1)
      (field "type" (str "choice") (field "selected" (arr (cons (str id) nil)) end)))

abbrev pub item : String → Bool → Value ℕ → Item ℕ
item id claim answer = record { id = some id; iscorrect = claim; answer = answer; other = end }

-- One active question, answered right, with a second item that claims more.
abbrev pub active : List (String × QuestionForGrading ℕ)
active = ("q1", question 1) ∷ []

abbrev pub honest : List (Item ℕ)
honest = item "q1" false (choose "a") ∷ []

abbrev pub cheating : List (Item ℕ)
cheating = item "q1" true undefined ∷ item "q1" true (choose "b") ∷ []

abbrev pub row : String → String → Bool → ℕ → QuestionRow ℕ
row id container status t = record {
  questionid = id;
  containerid = container;
  status = status;
  question = some (question t);
}

-- A quiz with one active question, one that is switched off and one with no renderer.
abbrev pub tables : Tables ℕ
tables = record {
  lessonquizquestions =
      row "q1" "quiz" true 1 ∷ row "q2" "quiz" false 1 ∷ row "q3" "quiz" true 9 ∷ [];
  levelquizquestions = [];
  baselinequestions = [];
  lessonpracticequestions = row "p1" "practice" true 1 ∷ [];
}
