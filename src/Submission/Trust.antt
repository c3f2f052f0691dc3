-- ===== src/Submission/Trust.antt =====
-- What the score of a submission rests on (src/business/gradesubmission.ts): the server's verdicts
-- when it is verified, and the client's claims in shadow mode.
use edtech_lms_rpi_api.Prelude.{
  ℕ, ◌+◌, ◌≡◌, refl, ◌∙◌, sym, ap, &&-eq-true, inl, inr, Bool, true, false, ◌&&◌, Option, none,
  some, List, [], ◌∷◌, ◌++◌, map, String, ◌==◌, eq_iff, if◌then◌else◌, arith, every, contains,
  Bool-cases, Option-cases,
}
use native.Mathlib.Nat.{add-zero}
use mathlib.Core.Path.{fun_ext}
use mathlib.Core.Option
use edtech_lms_rpi_api.Js.{Js, lookup}
use edtech_lms_rpi_api.Grading.Grade.{QuestionForGrading, gradable, grade_answer}
use edtech_lms_rpi_api.Submission.{
  Mode, shadow, enforce, Item, GradedItem, Seen, is_seen, is_gradable, counted_gradable, Questions,
  grade_item, first_seen, is_enforce, grade_submission_items,
}
use edtech_lms_rpi_api.Submission.Reference.{
  first_per_id, added, is_seen-append, first_seen-eq, IsRest, IsRest-suc, IsRest-here,
  scoring_items-eq-first_per_id,
}

every-lookup {ℓ} :
    {A : Type ℓ} (p : String → Bool) (active : List (String × A)) (id : String) (a : A)
    → every p (map (λ e. e.0) active) ≡ true
    → lookup id active ≡ some a
    → p id ≡ true
unfolding lookup
every-lookup p [] id a h e = ground arith
every-lookup p ((k, b) ∷ active) id a h e = elim (Bool-cases (k == id)) [
  | inl same ↦ rw (← (eq_iff k id).0 same) (&&-eq-true (p k) _ h).0
  | inr other ↦ every-lookup p active id a (&&-eq-true (p k) _ h).1 (ground arith)
]

module _ {N : Type 0} where
  abbrev pub carries : String → GradedItem N → Bool
  carries id g = elim g.raw.id [ none ↦ false | some k ↦ k == id ]

  -- The first item that carries an id.
  unfoldable pub item_of : String → List (GradedItem N) → Option (GradedItem N)
  item_of id [] = none
  item_of id (g ∷ graded) = if carries id g then some g else item_of id graded

  abbrev pub gradable_at : Option (GradedItem N) → Bool
  gradable_at none = false
  gradable_at (some g) = is_gradable g.category

  item_of-first_per_id :
      (id : String) (done : List String) (graded : List (GradedItem N))
      → contains done id ≡ false
      → item_of id (first_per_id done graded) ≡ item_of id graded
  unfolding item_of first_per_id contains
  item_of-first_per_id id done [] h = refl
  item_of-first_per_id id done (g ∷ graded) h = elim (Option-cases g.raw.id) [
    | inl gone ↦ ground (arith, item_of-first_per_id id done graded h)
    | inr (k, given) ↦ ground (
      arith,
      item_of-first_per_id id done graded h,
      item_of-first_per_id id (k ∷ done) graded,
      eq_iff k id,
    )
  ]

  -- The first submitted item that carries an id.
  abbrev pub carries_raw : String → Item N → Bool
  carries_raw id raw = elim raw.id [ none ↦ false | some k ↦ k == id ]

  unfoldable pub raw_of : String → List (Item N) → Option (Item N)
  raw_of id [] = none
  raw_of id (raw ∷ items) = if carries_raw id raw then some raw else raw_of id items

  pub raw_of-carries :
      (id : String) (items : List (Item N)) (raw : Item N)
      → raw_of id items ≡ some raw
      → raw.id ≡ some id
  unfolding raw_of
  raw_of-carries id [] raw h = ground arith
  raw_of-carries id (r ∷ items) raw h = elim (Option-cases r.id) [
    | inl gone ↦ raw_of-carries id items raw (ground arith)
    | inr (k, given) ↦ elim (Bool-cases (k == id)) [
      | inl same ↦
          let e : r ≡ raw = ground arith in rw (← e, given) (ap some ((eq_iff k id).0 same))
      | inr other ↦ raw_of-carries id items raw (ground arith)
    ]
  ]

  -- The same item with another claim.
  abbrev pub with_claim : (Item N → Bool) → Item N → Item N
  with_claim claim raw = record raw { iscorrect = claim raw }

  pub raw_of-with_claim :
      (claim : Item N → Bool) (id : String) (items : List (Item N))
      → raw_of id (map (with_claim claim) items) ≡ Option.map (with_claim claim) (raw_of id items)
  unfolding raw_of
  raw_of-with_claim claim id [] = refl
  raw_of-with_claim claim id (r ∷ items) = ground (arith, raw_of-with_claim claim id items)

module _ (js : Js) (active : Questions js) where
  open js use {Num}

  counted_gradable-added :
      (mode : Mode) (all : List (GradedItem Num)) (id : String) (index : ℕ) (seen : Seen)
      (items : List (Item Num))
      → is_seen id seen ≡ false
      → IsRest js all index (map (grade_item js mode active) items)
      → counted_gradable js all (added index seen items) id
        ≡ gradable_at (item_of id (map (grade_item js mode active) items))
  unfolding lookup added item_of grade_item is_seen
  counted_gradable-added mode all id index seen [] new rest = refl
  counted_gradable-added mode all id index seen (raw ∷ items) new rest =
      let after = IsRest-suc js all _ _ index rest in
      elim (Option-cases raw.id) [
        | inl gone ↦
            ground (arith, counted_gradable-added mode all id (index + 1) seen items new after)
        | inr (k, given) ↦ elim (Bool-cases (k == id)) [
          | inl same ↦ ground (arith, IsRest-here js all _ _ index rest, (eq_iff k id).0 same)
          | inr other ↦ ground (
            arith,
            counted_gradable-added mode all id (index + 1) seen items new after,
            is_seen-append id k index seen,
            counted_gradable-added mode all id (index + 1) (seen ++ (k, index) ∷ []) items,
          )
        ]
      ]

  verified_lem :
      (items : List (Item Num)) (mode : Mode)
      → (grade_submission_items js items active mode).verified ≡ (
          is_enforce mode
          && every
              (counted_gradable js
                (map (grade_item js mode active) items)
                (first_seen js 0 [] items))
              (map (λ e. e.0) active))
  unfolding grade_submission_items
  verified_lem items mode = refl

  pub verified-eq :
      (items : List (Item Num)) (mode : Mode)
      → (grade_submission_items js items active mode).verified ≡ (
          is_enforce mode
          && every
              (λ id.
                gradable_at
                  (item_of id (grade_submission_items js items active mode).scoring_items))
              (map (λ e. e.0) active))
  unfolding is_seen contains
  verified-eq items mode =
      let graded = map (grade_item js mode active) items in
      let at : (id : String)
          → counted_gradable js graded (first_seen js 0 [] items) id
            ≡ gradable_at (item_of id (grade_submission_items js items active mode).scoring_items) =
        λ id.
          rw
            (
              scoring_items-eq-first_per_id js items active mode,
              item_of-first_per_id id [] graded refl,
            )
            (rw (first_seen-eq js 0 [] items)
              (counted_gradable-added mode graded id 0 [] items refl (λ k. rw add-zero))) in
      verified_lem items mode
      ∙ ap (λ p. is_enforce mode && every p (map (λ e. e.0) active)) (fun_ext at)

  pub item_of-map :
      (mode : Mode) (id : String) (items : List (Item Num))
      → item_of id (map (grade_item js mode active) items)
        ≡ Option.map (grade_item js mode active) (raw_of id items)
  unfolding item_of raw_of grade_item
  item_of-map mode id [] = refl
  item_of-map mode id (r ∷ items) = ground (arith, item_of-map mode id items)

  pub scored_item :
      (mode : Mode) (id : String) (items : List (Item Num))
      → item_of id (grade_submission_items js items active mode).scoring_items
        ≡ Option.map (grade_item js mode active) (raw_of id items)
  unfolding contains
  scored_item mode id items =
      rw (scoring_items-eq-first_per_id js items active mode)
        (item_of-first_per_id id [] _ refl ∙ item_of-map mode id items)

  pub server_verdict :
      (raw : Item Num) (id : String) (question : QuestionForGrading Num)
      → raw.id ≡ some id
      → lookup id active ≡ some question
      → is_gradable (grade_item js enforce active raw).category ≡ true
      → grade_answer js question raw.answer ≡ gradable (grade_item js enforce active raw).iscorrect
  unfolding grade_item
  server_verdict raw id question given found h = ground arith

  grade_item_verdict :
      (raw : Item Num) (id : String) (question : QuestionForGrading Num)
      → raw.id ≡ some id
      → lookup id active ≡ some question
      → is_gradable (grade_item js enforce active raw).category ≡ true
      → grade_answer js question (grade_item js enforce active raw).raw.answer
        ≡ gradable (grade_item js enforce active raw).iscorrect
  unfolding grade_item
  grade_item_verdict raw id question given found h = server_verdict raw id question given found h

  -- In a verified submission each active question has an item that it is scored by, the mode is
  -- "enforce", and whether that item is correct is the server's verdict on its answer.
  pub verified-server_verdict :
      (items : List (Item Num)) (mode : Mode) (id : String) (question : QuestionForGrading Num)
      → (grade_submission_items js items active mode).verified ≡ true
      → lookup id active ≡ some question
      → (g : GradedItem Num) × (item_of id
            (grade_submission_items js items active mode).scoring_items
          ≡ some g)
        × (mode ≡ enforce)
        × (grade_answer js question g.raw.answer ≡ gradable g.iscorrect)
  verified-server_verdict items shadow id question v found =
      let h = sym (verified-eq items shadow) ∙ v in ground arith
  verified-server_verdict items enforce id question v found =
      let scoring = (grade_submission_items js items active enforce).scoring_items in
      let h : gradable_at (item_of id scoring) ≡ true =
        every-lookup (λ k. gradable_at (item_of k scoring)) active id question
          (sym (verified-eq items enforce) ∙ v) found in
      elim (Option-cases (raw_of id items)) [
        | inl gone ↦ ground (arith, scored_item enforce id items)
        | inr (raw, first) ↦
            let e : item_of id scoring ≡ some (grade_item js enforce active raw) =
              scored_item enforce id items ∙ ap (Option.map (grade_item js enforce active)) first in
            (
              grade_item js enforce active raw,
              e,
              refl,
              grade_item_verdict raw id question (raw_of-carries id items raw first) found
                  (rw (e, gradable_at) at h),
            )
      ]

  -- The item that an id is scored by is the first submitted one.
  pub scored_raw :
      (items : List (Item Num)) (mode : Mode) (id : String) (g : GradedItem Num)
      → item_of id (grade_submission_items js items active mode).scoring_items ≡ some g
      → raw_of id items ≡ some g.raw
  unfolding grade_item
  scored_raw items mode id g e = elim (Option-cases (raw_of id items)) [
    | inl gone ↦ ground (arith, scored_item mode id items)
    | inr (raw, first) ↦ ground (arith, scored_item mode id items)
  ]
