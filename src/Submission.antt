-- ===== src/Submission.antt =====
-- src/business/gradesubmission.ts: the items of a submitted result, graded and chosen for scoring.
pub mod Reference
pub mod Counted
pub mod Trust
pub mod Claims
use edtech_lms_rpi_api.Prelude.{
  ℕ, suc, ◌+◌, Bool, true, false, not, ◌&&◌, Option, none, some, List, [], ◌∷◌, ◌++◌, map, String,
  ◌==◌, if◌then◌else◌, leb, get_elem?, every,
}
use edtech_lms_rpi_api.Js.{Value, Fields, Js, is_nullish, lookup}
use edtech_lms_rpi_api.Grading.Answer.{is_answer_v1}
use edtech_lms_rpi_api.Grading.Grade.{
  QuestionForGrading, GradeResult, gradable, ungradable, Reason, no_answer, unsupported_template,
  prototype_not_graded, malformed, type_mismatch, grade_answer,
}

pub data Mode : Type 0 where
  shadow enforce : Mode

pub data ServerGrade : Type 0 where
  correct incorrect not_gradable : ServerGrade

pub data Category : Type 0 where
  gradable_item bad_answer no_info : Category

-- A submitted item: the property under `idKey` (`none` is absent), the client's claim
-- (`iscorrect === true`), the answer (`undefined` when absent) and the properties that `...raw`
-- copies.
pub record Item (N : Type 0) : Type 0 where
  pub id : Option String
  pub iscorrect : Bool
  pub answer : Value N
  pub other : Fields N

pub record GradedItem (N : Type 0) : Type 0 where
  pub raw : Item N
  pub iscorrect : Bool
  pub clientiscorrect : Bool
  pub servergrade : Option ServerGrade
  pub category : Category

pub record Classified : Type 0 where
  pub category : Category
  pub servergrade : Option ServerGrade
  pub verdict : Option Bool

abbrev pub classified : Category → Option ServerGrade → Option Bool → Classified
classified c g v = record { category = c; servergrade = g; verdict = v }

-- The last three returns of `classify`.
abbrev pub of_result : GradeResult → Classified
of_result (gradable true) = classified gradable_item (some correct) (some true)
of_result (gradable false) = classified gradable_item (some incorrect) (some false)
of_result (ungradable malformed) = classified bad_answer (some not_gradable) none
of_result (ungradable type_mismatch) = classified bad_answer (some not_gradable) none
of_result _ = classified no_info (some not_gradable) none

-- `mode`, the client's claim, the category and the verdict (`null` never meets "gradable").
unfoldable pub effective_iscorrect : Mode → Bool → Category → Option Bool → Bool
effective_iscorrect shadow claim category verdict = claim
effective_iscorrect enforce claim gradable_item (some verdict) = verdict
effective_iscorrect enforce claim gradable_item none = false
effective_iscorrect enforce claim bad_answer verdict = false
effective_iscorrect enforce claim no_info verdict = claim

-- `firstSeenIndexByActiveId`, as the list of its entries in insertion order.
abbrev pub Seen : Type 0
Seen = List (String × ℕ)

unfoldable pub is_seen : String → Seen → Bool
is_seen id [] = false
is_seen id ((k, index) ∷ seen) = if k == id then true else is_seen id seen

-- `sort((a, b) => a - b)`
unfoldable pub insert_index : ℕ → List ℕ → List ℕ
insert_index i [] = i ∷ []
insert_index i (j ∷ js) = if leb i j then i ∷ j ∷ js else j ∷ insert_index i js

unfoldable pub sort_indexes : List ℕ → List ℕ
unfolding insert_index
sort_indexes [] = []
sort_indexes (i ∷ is) = insert_index i (sort_indexes is)

-- `indexes.map((index) => graded[index])`
unfoldable pub pick {ℓ} : {A : Type ℓ} → List A → List ℕ → List A
pick xs [] = []
pick xs (i ∷ is) =
    let rest = pick xs is in elim (get_elem? xs i) [ none ↦ rest | some x ↦ x ∷ rest ]

abbrev pub is_gradable : Category → Bool
is_gradable gradable_item = true
is_gradable _ = false

abbrev pub is_enforce : Mode → Bool
is_enforce enforce = true
is_enforce shadow = false

module _ (js : Js) where
  open js use {Num}

  abbrev pub Questions : Type 0
  Questions = List (String × QuestionForGrading Num)

  unfoldable pub classify : Item Num → Option (QuestionForGrading Num) → Classified
  classify raw none = classified no_info none none
  classify raw (some question) =
      if is_nullish raw.answer
      then classified no_info (some not_gradable) none
      else if not (is_answer_v1 js raw.answer)
      then classified bad_answer (some not_gradable) none
      else of_result (grade_answer js question raw.answer)

  abbrev pub question_of : Questions → Item Num → Option (QuestionForGrading Num)
  question_of active raw = elim raw.id [ none ↦ none | some id ↦ lookup id active ]

  unfoldable pub grade_item : Mode → Questions → Item Num → GradedItem Num
  unfolding classify effective_iscorrect
  grade_item mode active raw =
      let c = classify raw (question_of active raw) in
      record {
        raw = raw;
        iscorrect = effective_iscorrect mode raw.iscorrect c.category c.verdict;
        clientiscorrect = raw.iscorrect;
        servergrade = c.servergrade;
        category = c.category;
      }

  abbrev pub note_first : ℕ → Option String → Seen → Seen
  note_first index none seen = seen
  note_first index (some id) seen = if is_seen id seen then seen else seen ++ (id, index) ∷ []

  -- The effect of `items.map` on the map of first positions.
  unfoldable pub first_seen : ℕ → Seen → List (Item Num) → Seen
  unfolding is_seen
  first_seen index seen [] = seen
  first_seen index seen (raw ∷ items) = first_seen (index + 1) (note_first index raw.id seen) items

  abbrev pub counted_gradable : List (GradedItem Num) → Seen → String → Bool
  counted_gradable graded seen id = elim (lookup id seen) [
    | none ↦ false
    | some index ↦ elim (get_elem? graded index) [ none ↦ false | some g ↦ is_gradable g.category ]
  ]

  pub record GradeSubmissionResult : Type 0 where
    pub items : List (GradedItem Num)
    pub scoring_items : List (GradedItem Num)
    pub verified : Bool

  -- The category stays on the items here; the source strips it before it returns them.
  unfoldable pub grade_submission_items : List (Item Num) → Questions → Mode → GradeSubmissionResult
  unfolding grade_item first_seen sort_indexes pick
  grade_submission_items items active mode =
      let graded = map (grade_item mode active) items in
      let seen = first_seen 0 [] items in
      record {
        items = graded;
        scoring_items = pick graded (sort_indexes (map (λ e. e.1) seen));
        verified = is_enforce mode && every (counted_gradable graded seen) (map (λ e. e.0) active);
      }
