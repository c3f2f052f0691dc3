-- ===== src/Score.antt =====
-- src/business/quizscore.ts and src/business/practicescore.ts: the score of an attempt.
pub mod Pass
pub mod Marks
pub mod Server
pub mod Container
use edtech_lms_rpi_api.Prelude.{
  ℕ, ◌+◌, ◌*◌, ◌/◌, min, Bool, true, false, not, ◌&&◌, Option, none, some, List, [], ◌∷◌, ◌++◌, map,
  String, ◌==◌, if◌then◌else◌, eqb, leb, filter, length, contains, set_of,
}
use edtech_lms_rpi_api.Grading.Grade.{QuestionForGrading, unsupported_templates}

-- A percentage in hundredths (`toFixed(2)`).
pub record PassResult : Type 0 where
  pub marks : ℕ
  pub percentage : ℕ
  pub ispass : Bool

-- COMPLETED_PERCENTAGE
abbrev pub completed_percentage : ℕ
completed_percentage = 80

-- `Number(Math.min(100, (marks * 100) / activecount).toFixed(2))`: the hundredth nearest to the
-- quotient, the greater one at a tie. With fewer than 4000 active questions the runtime's division
-- is exact at every tie, and everywhere else off by less than its distance from one, so that it
-- rounds as the exact quotient does.
unfoldable pub percent : ℕ → ℕ → ℕ
percent marks activecount = min 10000 ((20000 * marks + activecount) / (2 * activecount))

unfoldable pub quiz_pass_result : ℕ → ℕ → PassResult
unfolding percent
quiz_pass_result marks activecount =
    if eqb activecount 0 then record { marks = 0; percentage = 0; ispass = false } else record {
      marks = marks;
      percentage = percent marks activecount;
      ispass = leb (100 * completed_percentage) (percent marks activecount);
    }

unfoldable pub practice_pass_result : ℕ → ℕ → PassResult
unfolding percent
practice_pass_result marks activecount =
    if eqb activecount 0
    then record { marks = marks; percentage = 10000; ispass = true }
    else record {
      marks = marks;
      percentage = percent marks activecount;
      ispass = leb (100 * completed_percentage) (percent marks activecount);
    }

-- `ResultContainer` of src/business/result-items.ts: what a result is for.
pub data ResultContainer : Type 0 where
  lessonpractice lessonquiz levelquiz baseline : ResultContainer

-- A row of `lessonquizquestions`, `levelquizquestions`, `baselinequestion` or
-- `lessonpracticequestions`, with the row of `questions` that it is joined with (`none` if there
-- is none): the row's own id, its container's id, and its status.
pub record QuestionRow (N : Type 0) : Type 0 where
  pub questionid : String
  pub containerid : String
  pub status : Bool
  pub question : Option (QuestionForGrading N)

-- An item of a result, as the scorers read it.
pub record ScoredAnswer : Type 0 where
  pub iscorrect : Bool
  pub questionid : String

-- The four tables.
pub record Tables (N : Type 0) : Type 0 where
  pub lessonquizquestions : List (QuestionRow N)
  pub levelquizquestions : List (QuestionRow N)
  pub baselinequestions : List (QuestionRow N)
  pub lessonpracticequestions : List (QuestionRow N)

-- `Map.prototype.set`
unfoldable pub set_entry {ℓ} : {A : Type ℓ} → String → A → List (String × A) → List (String × A)
set_entry k a [] = (k, a) ∷ []
set_entry k a ((j, b) ∷ m) = if j == k then (k, a) ∷ m else (j, b) ∷ set_entry k a m

unfoldable pub correct_ids : List String → List ScoredAnswer → List String
correct_ids activeids answers =
    set_of (
      map (λ a. a.questionid)
        (filter (λ a. a.iscorrect && contains activeids a.questionid) answers))

module _ {N : Type 0} where
  -- A joined question with a template that has a renderer (UNRENDERED_TEMPLATE_TYPES).
  abbrev pub is_rendered : Option (QuestionForGrading N) → Bool
  is_rendered none = false
  is_rendered (some q) = not (unsupported_templates q.templatetypeid)

  -- The loop that fills the map of gradable questions.
  unfoldable pub fill :
      List (String × QuestionForGrading N)
      → List (QuestionRow N)
      → List (String × QuestionForGrading N)
  unfolding set_entry
  fill out [] = out
  fill out (row ∷ rows) =
      fill (elim row.question [ none ↦ out | some q ↦ set_entry row.questionid q out ]) rows

-- `same` is how the database compares two ids.
module _ {N : Type 0} (same : String → String → Bool) where
  -- The query that the scorers and the `get…gradablequestions` functions make.
  unfoldable pub active_rows : String → List (QuestionRow N) → List (QuestionRow N)
  active_rows containerid =
      filter (λ r. same r.containerid containerid && r.status && is_rendered r.question)

  unfoldable pub gradable_questions :
      String → List (QuestionRow N) → List (String × QuestionForGrading N)
  unfolding active_rows fill
  gradable_questions containerid table = fill [] (active_rows containerid table)

  unfoldable pub active_ids : String → List (QuestionRow N) → List String
  unfolding active_rows
  active_ids containerid table = set_of (map (λ r. r.questionid) (active_rows containerid table))

  unfoldable pub get_lesson_quiz_gradable_questions :
      Tables N → String → List (String × QuestionForGrading N)
  get_lesson_quiz_gradable_questions db lessonquizid =
      gradable_questions lessonquizid db.lessonquizquestions

  unfoldable pub get_level_quiz_gradable_questions :
      Tables N → String → List (String × QuestionForGrading N)
  get_level_quiz_gradable_questions db levelid = gradable_questions levelid db.levelquizquestions

  unfoldable pub get_baseline_gradable_questions :
      Tables N → String → List (String × QuestionForGrading N)
  get_baseline_gradable_questions db curriculumbaselineid =
      gradable_questions curriculumbaselineid db.baselinequestions

  unfoldable pub get_practice_gradable_questions :
      Tables N → String → List (String × QuestionForGrading N)
  get_practice_gradable_questions db lessonpracticeid =
      gradable_questions lessonpracticeid db.lessonpracticequestions

  -- `answers` is empty where the source's is `undefined`.
  unfoldable pub score_lesson_quiz : Tables N → String → List ScoredAnswer → PassResult
  score_lesson_quiz db lessonquizid answers =
      let activeids = active_ids lessonquizid db.lessonquizquestions in
      quiz_pass_result (length (correct_ids activeids answers)) (length activeids)

  unfoldable pub score_level_quiz : Tables N → String → List ScoredAnswer → PassResult
  score_level_quiz db levelid answers =
      let activeids = active_ids levelid db.levelquizquestions in
      quiz_pass_result (length (correct_ids activeids answers)) (length activeids)

  unfoldable pub score_baseline : Tables N → String → List ScoredAnswer → PassResult
  score_baseline db curriculumbaselineid answers =
      let activeids = active_ids curriculumbaselineid db.baselinequestions in
      quiz_pass_result (length (correct_ids activeids answers)) (length activeids)

  unfoldable pub score_practice : Tables N → String → List ScoredAnswer → PassResult
  score_practice db lessonpracticeid answers =
      let activeids = active_ids lessonpracticeid db.lessonpracticequestions in
      practice_pass_result (length (correct_ids activeids answers)) (length activeids)

  -- The tables, the questions and the scorers by the kind of the result.
  abbrev pub table_of : ResultContainer → Tables N → List (QuestionRow N)
  table_of lessonquiz db = db.lessonquizquestions
  table_of levelquiz db = db.levelquizquestions
  table_of baseline db = db.baselinequestions
  table_of lessonpractice db = db.lessonpracticequestions

  abbrev pub questions_of :
      ResultContainer → Tables N → String → List (String × QuestionForGrading N)
  questions_of lessonquiz = get_lesson_quiz_gradable_questions
  questions_of levelquiz = get_level_quiz_gradable_questions
  questions_of baseline = get_baseline_gradable_questions
  questions_of lessonpractice = get_practice_gradable_questions

  abbrev pub score_of : ResultContainer → Tables N → String → List ScoredAnswer → PassResult
  score_of lessonquiz = score_lesson_quiz
  score_of levelquiz = score_level_quiz
  score_of baseline = score_baseline
  score_of lessonpractice = score_practice

-- The rule that turns marks into a result: practice keeps its own.
abbrev pub result_of : ResultContainer → ℕ → ℕ → PassResult
result_of lessonpractice = practice_pass_result
result_of _ = quiz_pass_result
