-- ===== src/Grading/Choices.antt =====
-- What the choice and match graders of src/business/grading/templates.ts decide.
use edtech_lms_rpi_api.Prelude.{
  ◌≡◌, refl, ◌∙◌, ◌↔◌, true, some, none, List, [], ◌∷◌, map, String, eq_iff, arith, length, every,
  filter, contains, set_of, IsNodup, IsSubset, set_of-IsNodup, length-set_of_iff, contains-set_of,
  subset_of_length-eq, length-le_of_subset, Option, Option-cases, All, &&-eq-true, sym, ==_self,
  eq_of_iff,
}
use edtech_lms_rpi_api.Js.{lookup}
use edtech_lms_rpi_api.Grading.Options.{GradingOption}
use edtech_lms_rpi_api.Grading.Templates.{option_id, grade_choice, grade_match}

every-contains : (ys xs : List String) → (every (contains ys) xs ≡ true) ↔ IsSubset xs ys
unfolding contains
every-contains ys [] = (λ _ a h. ground arith, λ _. refl)
every-contains ys (x ∷ xs) = (
  λ h a m.
      ground (arith, (every-contains ys xs).0 (&&-eq-true (contains ys x) _ h).1 a, eq_iff x a),
  λ s. ground (
    arith,
    s x (ground (arith, ==_self x)),
    (every-contains ys xs).1 (λ a m. s a (ground arith)),
  ),
)

abbrev dragged : Option String → String
dragged none = ""
dragged (some s) = s

-- Two lists of texts with the same members.
abbrev pub SameMembers : List String → List String → Type 0
SameMembers xs ys = (a : String) → contains xs a ≡ contains ys a

module _ {N : Type 0} where
  -- The ids of the options that are marked correct.
  abbrev pub marked : List (GradingOption N) → List String
  marked options = map option_id (filter (λ o. o.questionoptioniscorrect) options)

  grade_choice_sound :
      (options : List (GradingOption N)) (selected : List String)
      → grade_choice options selected ≡ true
      → IsNodup selected × SameMembers selected (marked options)
  unfolding grade_choice
  grade_choice_sound options selected h =
      let chosen = set_of selected in
      let correct = set_of (marked options) in
      let sizes : (length chosen ≡ length selected) × (length chosen ≡ length correct) =
        ground arith in
      let inside = (every-contains correct chosen).0 (ground arith) in
      let (back, _) =
        subset_of_length-eq chosen correct (set_of-IsNodup selected) inside
          (omega (arith, sizes.1)) in
      (
        (length-set_of_iff selected).0 sizes.0,
        λ a.
            sym (contains-set_of selected a)
            ∙ eq_of_iff _ _ (inside a) (back a)
            ∙ contains-set_of (marked options) a,
      )

  grade_choice_complete :
      (options : List (GradingOption N)) (selected : List String)
      → IsNodup selected
      → SameMembers selected (marked options)
      → grade_choice options selected ≡ true
  unfolding grade_choice
  grade_choice_complete options selected n same =
      let chosen = set_of selected in
      let correct = set_of (marked options) in
      let alike : SameMembers chosen correct =
        λ a. contains-set_of selected a ∙ same a ∙ sym (contains-set_of (marked options) a) in
      let inside : IsSubset chosen correct = λ a h. sym (alike a) ∙ h in
      let back : IsSubset correct chosen = λ a h. alike a ∙ h in
      let le = length-le_of_subset chosen correct (set_of-IsNodup _) inside in
      let ge = length-le_of_subset correct chosen (set_of-IsNodup _) back in
      ground
        (arith, (length-set_of_iff selected).1 n, le, ge, (every-contains correct chosen).1 inside)

  -- A choice is graded correct exactly when nothing is selected twice and the selected ids are
  -- the ids of the options marked correct, no more and no less.
  pub grade_choice_iff :
      (options : List (GradingOption N)) (selected : List String)
      → (grade_choice options selected ≡ true)
        ↔ (IsNodup selected × SameMembers selected (marked options))
  grade_choice_iff options selected =
      (grade_choice_sound options selected, λ h. grade_choice_complete options selected h.0 h.1)

  -- A drag-and-drop answer is graded correct exactly when every option's target holds that option.
  pub grade_match_iff :
      (options : List (GradingOption N)) (pairs : List (String × String))
      → (grade_match options pairs ≡ true)
        ↔ All (λ o. lookup o.questionoptionid pairs ≡ some o.questionoptionid) options
  unfolding grade_match
  grade_match_iff [] pairs = (λ _. tt, λ _. refl)
  grade_match_iff (o ∷ options) pairs = ground (
    arith,
    grade_match_iff options pairs,
    Option-cases (lookup o.questionoptionid pairs),
    eq_iff (dragged (lookup o.questionoptionid pairs)) o.questionoptionid,
  )
