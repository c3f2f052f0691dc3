-- ===== src/Submission/Claims.antt =====
-- How far a client's own claims reach (src/business/gradesubmission.ts).
use edtech_lms_rpi_api.Prelude.{
  ◌≡◌, refl, ◌∙◌, sym, ap, ◌⊎◌, ◌↔◌, inl, inr, Bool, true, false, some, List, [], ◌∷◌, map, String,
  arith, every, contains, All, Bool-cases, Option-cases,
}
use mathlib.Core.Path.{fun_ext}
use mathlib.Core.Option
use edtech_lms_rpi_api.Js.{Js, is_nullish, lookup}
use edtech_lms_rpi_api.Grading.Answer.{is_answer_v1}
use edtech_lms_rpi_api.Grading.Grade.{
  QuestionForGrading, gradable, ungradable, unsupported_template, prototype_not_graded,
  grade_answer,
}
use edtech_lms_rpi_api.Grading.Verdicts.{
  grade_answer-eq-gradable_iff, is_answer_v1-given, grade_answer-ne-no_answer,
}
use edtech_lms_rpi_api.Submission.{
  shadow, enforce, Item, GradedItem, Questions, grade_item, grade_submission_items,
}
use edtech_lms_rpi_api.Submission.Reference.{first_per_id, scoring_items-eq-first_per_id}
use edtech_lms_rpi_api.Submission.Trust.{
  item_of, gradable_at, raw_of, with_claim, raw_of-with_claim, scored_item, verified-eq,
  verified-server_verdict,
}

module _ {N : Type 0} (P : GradedItem N → Type 0) where
  All-first_per_id :
      (done : List String) (graded : List (GradedItem N))
      → All P graded
      → All P (first_per_id done graded)
  unfolding first_per_id
  All-first_per_id done [] h = tt
  All-first_per_id done (g ∷ graded) h = elim (Option-cases g.raw.id) [
    | inl gone ↦ rw gone (All-first_per_id done graded h.1)
    | inr (id, given) ↦ elim (Bool-cases (contains done id)) [
      | inl old ↦ rw (given, old) (All-first_per_id done graded h.1)
      | inr new ↦ rw (given, new) (h.0, All-first_per_id (id ∷ done) graded h.1)
    ]
  ]

-- The item is as correct as the client says.
abbrev pub IsAsClaimed : {N : Type 0} → GradedItem N → Type 0
IsAsClaimed g = (g.iscorrect ≡ g.raw.iscorrect) × (g.clientiscorrect ≡ g.raw.iscorrect)

module _ (js : Js) (active : Questions js) where
  open js use {Num}

  shadow_items :
      (items : List (Item Num)) → All IsAsClaimed (map (grade_item js shadow active) items)
  unfolding grade_item
  shadow_items [] = tt
  shadow_items (raw ∷ items) = ((refl, refl), shadow_items items)

  -- In shadow mode every item, stored or scored by, is as correct as its client claims, and the
  -- submission is not verified.
  shadow-IsAsClaimed :
      (items : List (Item Num))
      → let result = grade_submission_items js items active shadow in
        All IsAsClaimed result.items
        × All IsAsClaimed result.scoring_items
        × (result.verified ≡ false)
  unfolding grade_submission_items
  shadow-IsAsClaimed items = (
    shadow_items items,
    rw (scoring_items-eq-first_per_id js items active shadow)
        (All-first_per_id IsAsClaimed [] _ (shadow_items items)),
    refl,
  )

  graded_iscorrect :
      (raw : Item Num) (id : String) (question : QuestionForGrading Num) (correct : Bool)
      → raw.id ≡ some id
      → lookup id active ≡ some question
      → grade_answer js question raw.answer ≡ gradable correct
      → (grade_item js enforce active raw).iscorrect ≡ correct
  unfolding grade_item
  graded_iscorrect raw id question correct given found e =
      let v = (grade_answer-eq-gradable_iff js question raw.answer correct).0 e in
      ground (arith, v.shaped, is_answer_v1-given js raw.answer v.shaped)

  -- In "enforce" mode an item that answers an active question is correct exactly when the server
  -- grades its answer correct, or its client claims that it is correct and it has no answer or a
  -- well-formed one to a question of a template that is not graded.
  pub enforced_iscorrect :
      (raw : Item Num) (id : String) (question : QuestionForGrading Num)
      → raw.id ≡ some id
      → lookup id active ≡ some question
      → ((grade_item js enforce active raw).iscorrect ≡ true) ↔ (
          (grade_answer js question raw.answer ≡ gradable true)
          ⊎ ((raw.iscorrect ≡ true)
              × ((is_nullish raw.answer ≡ true)
                  ⊎ ((is_answer_v1 js raw.answer ≡ true)
                      × ((grade_answer js question raw.answer ≡ ungradable unsupported_template)
                          ⊎ (grade_answer js question raw.answer
                              ≡ ungradable prototype_not_graded))))))
  unfolding grade_item
  enforced_iscorrect raw id question given found = (
    λ h. ground (arith, grade_answer-ne-no_answer js question raw.answer),
    λ h. elim h [
      | inl right ↦ graded_iscorrect raw id question true given found right
      | inr (claimed, rest) ↦ ground arith
    ],
  )

  claims_gradable_at :
      (claim : Item Num → Bool) (items : List (Item Num)) (id : String)
      → gradable_at (
          item_of id
            (grade_submission_items js (map (with_claim claim) items) active enforce).scoring_items)
        ≡ gradable_at (item_of id (grade_submission_items js items active enforce).scoring_items)
  unfolding grade_item
  claims_gradable_at claim items id =
      rw (scored_item js active enforce id (map (with_claim claim) items)) (
        rw (scored_item js active enforce id items) (
          rw (raw_of-with_claim claim id items) (elim (Option-cases (raw_of id items)) [
            | inl gone ↦ rw gone
            | inr (raw, first) ↦ rw first
          ])))

  abbrev Verdict : List (Item Num) → String → QuestionForGrading Num → Type 0
  Verdict items id question =
      (g : GradedItem Num) × (item_of id
          (grade_submission_items js items active enforce).scoring_items
        ≡ some g)
      × (enforce ≡ enforce)
      × (grade_answer js question g.raw.answer ≡ gradable g.iscorrect)

  scored_answer :
      (items : List (Item Num)) (id : String) (g : GradedItem Num)
      → item_of id (grade_submission_items js items active enforce).scoring_items ≡ some g
      → (raw : Item Num) × (raw_of id items ≡ some raw) × (g.raw ≡ raw)
  unfolding grade_item
  scored_answer items id g e = elim (Option-cases (raw_of id items)) [
    | inl gone ↦ ground (arith, scored_item js active enforce id items)
    | inr (raw, first) ↦ (raw, first, ground (arith, scored_item js active enforce id items))
  ]

  with_claim-Verdict :
      (claim : Item Num → Bool) (items : List (Item Num)) (id : String)
      (question : QuestionForGrading Num)
      → lookup id active ≡ some question
      → Verdict (map (with_claim claim) items) id question
      → Verdict items id question
      → Option.map
          (λ (g : GradedItem Num). g.iscorrect)
          (item_of id
            (grade_submission_items js (map (with_claim claim) items) active enforce).scoring_items)
        ≡ Option.map
            (λ (g : GradedItem Num). g.iscorrect)
            (item_of id (grade_submission_items js items active enforce).scoring_items)
  with_claim-Verdict claim items id question found (g, at, _, verdict) (h, at', _, verdict') =
      let (raw, first, same) = scored_answer (map (with_claim claim) items) id g at in
      let (raw', first', same') = scored_answer items id h at' in
      ground (
        arith,
        at,
        at',
        verdict,
        verdict',
        first,
        first',
        same,
        same',
        raw_of-with_claim claim id items,
      )

  -- A verified submission stays verified, and the item of an active question stays as correct as
  -- it was, whatever the clients' claims on its items are changed to.
  pub verified-with_claim :
      (claim : Item Num → Bool) (items : List (Item Num)) (id : String)
      (question : QuestionForGrading Num)
      → (grade_submission_items js items active enforce).verified ≡ true
      → lookup id active ≡ some question
      → let changed = grade_submission_items js (map (with_claim claim) items) active enforce in
        (changed.verified ≡ true)
        × (Option.map (λ (g : GradedItem Num). g.iscorrect) (item_of id changed.scoring_items)
            ≡ Option.map
                (λ (g : GradedItem Num). g.iscorrect)
                (item_of id (grade_submission_items js items active enforce).scoring_items))
  verified-with_claim claim items id question v found =
      let changed = map (with_claim claim) items in
      let still : (grade_submission_items js changed active enforce).verified ≡ true =
        verified-eq js active changed enforce
        ∙ ap (λ p. every p (map (λ e. e.0) active)) (fun_ext (claims_gradable_at claim items))
        ∙ sym (verified-eq js active items enforce)
        ∙ v in
      (
        still,
        with_claim-Verdict claim items id question found
            (verified-server_verdict js active changed enforce id question still found)
            (verified-server_verdict js active items enforce id question v found),
      )
