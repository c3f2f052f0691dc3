-- ===== src/Score/Server.antt =====
-- The score of a verified submission: src/business/gradesubmission.ts in front of quizscore.ts and
-- practicescore.ts.
use edtech_lms_rpi_api.Prelude.{
  ℕ, ◌≡◌, refl, ◌∙◌, sym, ap, inl, inr, Bool, true, false, ◌&&◌, ◌||◌, Option, none, some, List, [],
  ◌∷◌, map, String, ◌==◌, eq_iff, arith, filter, length, contains, All, IsNodup, set_of-IsNodup,
  contains-set_of, contains-filter, filter-IsNodup, Bool-cases, Option-cases,
}
use edtech_lms_rpi_api.Js.{Js, lookup}
use edtech_lms_rpi_api.Grading.Grade.{
  QuestionForGrading, GradeResult, gradable, ungradable, grade_answer,
}
use edtech_lms_rpi_api.Submission.{Mode, Item, GradedItem, grade_submission_items}
use edtech_lms_rpi_api.Submission.Counted.{graded_ids, scoring_items_once}
use edtech_lms_rpi_api.Submission.Trust.{item_of, raw_of, scored_raw, verified-server_verdict}
use edtech_lms_rpi_api.Score.{
  QuestionRow, ScoredAnswer, Tables, ResultContainer, lessonpractice, lessonquiz, levelquiz,
  baseline, table_of, score_of, result_of, questions_of, is_rendered, active_rows, active_ids, fill,
  set_entry, gradable_questions, correct_ids, get_lesson_quiz_gradable_questions,
  get_level_quiz_gradable_questions, get_baseline_gradable_questions,
  get_practice_gradable_questions,
}
use edtech_lms_rpi_api.Score.Marks.{
  score_of-eq, is_answered, contains-correct_ids, correct_ids-IsNodup, length-eq_of_SameMembers,
}

module _ {N : Type 0} where
  -- The graded items as the scorers read them; an item with no id answers no question.
  unfoldable pub to_answers : List (GradedItem N) → List ScoredAnswer
  to_answers [] = []
  to_answers (g ∷ graded) = elim g.raw.id [
    | none ↦ to_answers graded
    | some id ↦ record { iscorrect = g.iscorrect; questionid = id } ∷ to_answers graded
  ]

  abbrev pub correct_at : Option (GradedItem N) → Bool
  correct_at none = false
  correct_at (some g) = g.iscorrect

  is_answered-absent :
      (graded : List (GradedItem N)) (id : String)
      → contains (graded_ids graded) id ≡ false
      → is_answered (to_answers graded) id ≡ false
  unfolding is_answered to_answers contains
  is_answered-absent [] id h = refl
  is_answered-absent (g ∷ graded) id h = elim (Option-cases g.raw.id) [
    | inl gone ↦ ground (arith, is_answered-absent graded id)
    | inr (k, given) ↦ ground (arith, is_answered-absent graded id)
  ]

  pub is_answered-to_answers :
      (graded : List (GradedItem N)) (id : String)
      → IsNodup (graded_ids graded)
      → is_answered (to_answers graded) id ≡ correct_at (item_of id graded)
  unfolding is_answered to_answers item_of IsNodup
  is_answered-to_answers [] id n = refl
  is_answered-to_answers (g ∷ graded) id n = elim (Option-cases g.raw.id) [
    | inl gone ↦ ground (arith, is_answered-to_answers graded id (rw gone at n))
    | inr (k, given) ↦
        let (fresh, rest) = nodup_parts k (graded_ids graded) (rw given at n) in
        elim (Bool-cases (k == id)) [
          | inl same ↦
              let e = (eq_iff k id).0 same in
              ground (arith, is_answered-absent graded id (rw e at fresh))
          | inr other ↦ ground (arith, is_answered-to_answers graded id rest)
        ]
  ]
    where
      nodup_parts :
          (k : String) (ids : List String)
          → IsNodup (k ∷ ids)
          → (contains ids k ≡ false) × IsNodup ids
      nodup_parts k ids h = h

abbrev is_some {ℓ} : {A : Type ℓ} → Option A → Bool
is_some none = false
is_some (some a) = true

module _ {N : Type 0} where
  lookup-set_entry :
      (m : List (String × QuestionForGrading N)) (k id : String) (q : QuestionForGrading N)
      → is_some (lookup id (set_entry k q m)) ≡ (k == id || is_some (lookup id m))
  unfolding lookup set_entry
  lookup-set_entry [] k id q = ground arith
  lookup-set_entry ((j, b) ∷ m) k id q =
      ground (arith, lookup-set_entry m k id q, eq_iff j k, eq_iff j id, eq_iff k id)

  abbrev row_id : QuestionRow N → String
  row_id r = r.questionid

  fill-keys :
      (rows : List (QuestionRow N)) (out : List (String × QuestionForGrading N)) (id : String)
      → All (λ r. is_rendered r.question ≡ true) rows
      → is_some (lookup id (fill out rows))
        ≡ (is_some (lookup id out) || contains (map row_id rows) id)
  unfolding fill contains
  fill-keys [] out id h = ground arith
  fill-keys (r ∷ rows) out id h = elim (Option-cases r.question) [
    | inl gone ↦ ground arith
    | inr (q, joined) ↦ ground (
      arith,
      fill-keys rows (set_entry r.questionid q out) id h.1,
      lookup-set_entry out r.questionid id q,
    )
  ]

  module _ (same : String → String → Bool) (containerid : String)
      (table : List (QuestionRow N)) where
    active_rows-rendered :
        All (λ r. is_rendered r.question ≡ true) (active_rows same containerid table)
    unfolding active_rows
    active_rows-rendered = filter_rendered table
      where
        filter_rendered :
            (rows : List (QuestionRow N))
            → All
                (λ r. is_rendered r.question ≡ true)
                (filter
                  (λ r. same r.containerid containerid && r.status && is_rendered r.question)
                  rows)
        filter_rendered [] = tt
        filter_rendered (r ∷ rows) = ground (arith, filter_rendered rows)

    -- The map of gradable questions has the ids of the active questions, and no other.
    gradable_questions-keys :
        (id : String)
        → is_some (lookup id (gradable_questions same containerid table))
          ≡ contains (active_ids same containerid table) id
    unfolding gradable_questions active_ids lookup
    gradable_questions-keys id = fill-keys _ [] id active_rows-rendered ∙ sym (contains-set_of _ id)

  active_ids-IsNodup :
      (same : String → String → Bool) (containerid : String) (table : List (QuestionRow N))
      → IsNodup (active_ids same containerid table)
  unfolding active_ids
  active_ids-IsNodup same containerid table = set_of-IsNodup _

-- The verdict of the server on an answer is "correct".
abbrev pub is_correct : GradeResult → Bool
is_correct (gradable correct) = correct
is_correct (ungradable reason) = false

module _ (js : Js) (same : String → String → Bool) where
  open js use {Num}

  -- The question is answered right by the first item that carries its id, as the server grades it.
  abbrev pub answered_right :
      List (String × QuestionForGrading Num) → List (Item Num) → String → Bool
  answered_right active items id = elim (lookup id active) [
    | none ↦ false
    | some question ↦ elim (raw_of id items) [
      | none ↦ false
      | some raw ↦ is_correct (grade_answer js question raw.answer)
    ]
  ]

  module _ (containerid : String) (table : List (QuestionRow Num)) (items : List (Item Num))
      (mode : Mode) where
    abbrev questions : List (String × QuestionForGrading Num)
    questions = gradable_questions same containerid table

    verified-answered :
        (grade_submission_items js items questions mode).verified ≡ true
        → (id : String) → contains (active_ids same containerid table) id ≡ true
        → is_answered (to_answers (grade_submission_items js items questions mode).scoring_items) id
          ≡ answered_right questions items id
    verified-answered v id active = elim (Option-cases (lookup id questions)) [
      | inl gone ↦ let e = gradable_questions-keys same containerid table id in ground arith
      | inr (question, found) ↦
          let (g, at, on, verdict) =
            verified-server_verdict js questions items mode id question v found in
          let raw = scored_raw js questions items mode id g at in
          is_answered-to_answers _ id (scoring_items_once js questions mode items).0
          ∙ rw at (rw (found, answered_right) (rw raw (rw verdict)))
    ]

    server_marks :
        (grade_submission_items js items questions mode).verified ≡ true
        → length (
            correct_ids
              (active_ids same containerid table)
              (to_answers (grade_submission_items js items questions mode).scoring_items))
          ≡ length (filter (answered_right questions items) (active_ids same containerid table))
    server_marks v =
        let ids = active_ids same containerid table in
        let answers = to_answers (grade_submission_items js items questions mode).scoring_items in
        length-eq_of_SameMembers (correct_ids ids answers)
          (filter (answered_right questions items) ids) (correct_ids-IsNodup ids answers)
          (filter-IsNodup _ ids (active_ids-IsNodup same containerid table))
          (λ id. contains-correct_ids ids answers id ∙ elim (Bool-cases (contains ids id)) [
            | inl active ↦
                rw (active, verified-answered v id active)
                  (sym (
                    contains-filter (answered_right questions items) ids id
                    ∙ rw active (and_true _)))
            | inr other ↦ rw other (
                sym (
                  contains-filter (answered_right questions items) ids id ∙ rw other (and_false _)))
          ])
      where
        and_true : (b : Bool) → (b && true) ≡ b
        and_true b = ground arith

        and_false : (b : Bool) → (b && false) ≡ false
        and_false b = ground arith

  -- The marks of a verified submission, by the questions and the items that it is graded from.
  abbrev pub server_count :
      List (String × QuestionForGrading Num) → List String → List (Item Num) → ℕ
  server_count active ids items = length (filter (answered_right active items) ids)

  questions_of-eq :
      (kind : ResultContainer) (db : Tables Num) (container : String)
      → questions_of same kind db container
        ≡ gradable_questions same container (table_of same kind db)
  unfolding get_lesson_quiz_gradable_questions get_level_quiz_gradable_questions
      get_baseline_gradable_questions get_practice_gradable_questions
  questions_of-eq lessonquiz db container = refl
  questions_of-eq levelquiz db container = refl
  questions_of-eq baseline db container = refl
  questions_of-eq lessonpractice db container = refl

  -- A verified submission, of any of the four kinds, that is graded against the active questions
  -- of its activity is scored by how many of those the server finds answered right, each by the
  -- first item that carries its id.
  pub verified_scores :
      (kind : ResultContainer) (db : Tables Num) (container : String) (items : List (Item Num))
      (mode : Mode)
      → (grade_submission_items js items (questions_of same kind db container) mode).verified ≡ true
      → let active = questions_of same kind db container in
        let ids = active_ids same container (table_of same kind db) in
        let result = grade_submission_items js items active mode in
        score_of same kind db container (to_answers result.scoring_items)
        ≡ result_of kind (server_count active ids items) (length ids)
  verified_scores kind db container items mode v =
      let table = table_of same kind db in
      let e = questions_of-eq kind db container in
      let w : (grade_submission_items js items (gradable_questions same container table)
            mode).verified
          ≡ true =
        rw e at v in
      score_of-eq same db kind container _
      ∙ ap (λ m. result_of kind m (length (active_ids same container table)))
          (rw e (server_marks container table items mode w))
