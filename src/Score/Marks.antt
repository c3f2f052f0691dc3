-- ===== src/Score/Marks.antt =====
-- What the marks of src/business/quizscore.ts and src/business/practicescore.ts count.
use edtech_lms_rpi_api.Prelude.{
  ℕ, ◌≤◌, ◌≡◌, refl, ◌∙◌, sym, ap, inl, inr, Bool, true, ◌&&◌, List, [], ◌∷◌, map, String, ◌==◌,
  eq_iff, arith, any, filter, length, contains, IsNodup, set_of-IsNodup, contains-set_of,
  length-le_of_subset, Bool-cases,
}
use edtech_lms_rpi_api.Grading.Choices.{SameMembers}
use edtech_lms_rpi_api.Score.{
  ResultContainer, lessonpractice, lessonquiz, levelquiz, baseline, table_of, score_of, result_of,
  quiz_pass_result, practice_pass_result, ScoredAnswer, Tables, active_ids, correct_ids,
  score_lesson_quiz, score_level_quiz, score_baseline, score_practice,
}

-- Some item for the question is correct.
unfoldable pub is_answered : List ScoredAnswer → String → Bool
is_answered answers id = any (λ a. a.iscorrect && a.questionid == id) answers

contains-chosen :
    (activeids : List String) (answers : List ScoredAnswer) (id : String)
    → contains
        (map
          (λ a. a.questionid)
          (filter (λ a. a.iscorrect && contains activeids a.questionid) answers))
        id
      ≡ (contains activeids id && is_answered answers id)
unfolding is_answered contains
contains-chosen activeids [] id = ground arith
contains-chosen activeids (a ∷ answers) id = elim (Bool-cases (a.questionid == id)) [
  | inl same ↦
      let e = (eq_iff a.questionid id).0 same in
      ground (arith, contains-chosen activeids answers id, ap (contains activeids) e)
  | inr other ↦ ground (arith, contains-chosen activeids answers id)
]

pub contains-correct_ids :
    (activeids : List String) (answers : List ScoredAnswer) (id : String)
    → contains (correct_ids activeids answers) id
      ≡ (contains activeids id && is_answered answers id)
unfolding correct_ids
contains-correct_ids activeids answers id =
    contains-set_of _ id ∙ contains-chosen activeids answers id

pub correct_ids-IsNodup :
    (activeids : List String) (answers : List ScoredAnswer)
    → IsNodup (correct_ids activeids answers)
unfolding correct_ids
correct_ids-IsNodup activeids answers = set_of-IsNodup _

pub length-eq_of_SameMembers :
    (xs ys : List String) → IsNodup xs → IsNodup ys → SameMembers xs ys → length xs ≡ length ys
length-eq_of_SameMembers xs ys n m same = omega (
  arith,
  length-le_of_subset xs ys n (λ a h. sym (same a) ∙ h),
  length-le_of_subset ys xs m (λ a h. same a ∙ h),
)

-- The answers say the same of each active question.
abbrev pub AgreeOn : List String → List ScoredAnswer → List ScoredAnswer → Type 0
AgreeOn activeids answers answers' =
    (id : String) → contains activeids id ≡ true → is_answered answers id ≡ is_answered answers' id

length-correct_ids :
    (activeids : List String) (answers answers' : List ScoredAnswer)
    → AgreeOn activeids answers answers'
    → length (correct_ids activeids answers) ≡ length (correct_ids activeids answers')
length-correct_ids activeids answers answers' agree =
    length-eq_of_SameMembers _ _ (correct_ids-IsNodup activeids answers)
      (correct_ids-IsNodup activeids answers')
      (λ id.
        contains-correct_ids activeids answers id
        ∙ elim (Bool-cases (contains activeids id)) [
          | inl active ↦ rw active (agree id active)
          | inr other ↦ rw other
        ]
        ∙ sym (contains-correct_ids activeids answers' id))

module _ {N : Type 0} (same : String → String → Bool) (db : Tables N) where
  pub score_of-eq :
      (kind : ResultContainer) (container : String) (answers : List ScoredAnswer)
      → score_of same kind db container answers
        ≡ result_of kind
            (length (correct_ids (active_ids same container (table_of same kind db)) answers))
            (length (active_ids same container (table_of same kind db)))
  unfolding score_lesson_quiz score_level_quiz score_baseline score_practice
  score_of-eq lessonquiz container answers = refl
  score_of-eq levelquiz container answers = refl
  score_of-eq baseline container answers = refl
  score_of-eq lessonpractice container answers = refl

  -- The score of an attempt, of any of the four kinds, depends only on which active questions have
  -- a correct item: repeated items and items for other questions change nothing.
  pub score_ext :
      (kind : ResultContainer) (container : String) (answers answers' : List ScoredAnswer)
      → AgreeOn (active_ids same container (table_of same kind db)) answers answers'
      → score_of same kind db container answers ≡ score_of same kind db container answers'
  score_ext kind container answers answers' h =
      score_of-eq kind container answers
      ∙ rw
          (length-correct_ids (active_ids same container (table_of same kind db)) answers answers'
            h)
          (sym (score_of-eq kind container answers'))

length-correct_ids-le :
    (activeids : List String) (answers : List ScoredAnswer)
    → length (correct_ids activeids answers) ≤ length activeids
length-correct_ids-le activeids answers =
    length-le_of_subset _ activeids (correct_ids-IsNodup activeids answers)
      (λ id h. let e = sym (contains-correct_ids activeids answers id) ∙ h in ground arith)

result_of-marks-le :
    (kind : ResultContainer) (marks activecount : ℕ)
    → (result_of kind marks activecount).marks ≤ marks
unfolding quiz_pass_result practice_pass_result
result_of-marks-le lessonpractice marks activecount = ground arith
result_of-marks-le _ marks activecount = ground arith

module _ {N : Type 0} (same : String → String → Bool) (db : Tables N) where
  -- No attempt, of any of the four kinds, has more marks than its activity has active questions.
  pub marks-le-active :
      (kind : ResultContainer) (container : String) (answers : List ScoredAnswer)
      → (score_of same kind db container answers).marks
        ≤ length (active_ids same container (table_of same kind db))
  marks-le-active kind container answers =
      let ids = active_ids same container (table_of same kind db) in
      rw (score_of-eq same db kind container answers) (
        omega (
          arith,
          result_of-marks-le kind (length (correct_ids ids answers)) (length ids),
          length-correct_ids-le ids answers,
        ))
