-- ===== src/Grading/Typed.antt =====
-- What the graders of typed answers decide (src/business/grading/prototypes.ts).
use edtech_lms_rpi_api.Prelude.{
  ◌≡◌, inl, inr, Bool, true, false, not, ◌||◌, Option, none, some, List, [], ◌∷◌, String,
  if◌then◌else◌, arith, any, Option-cases,
}
use edtech_lms_rpi_api.Js.{Js, lookup}
use edtech_lms_rpi_api.Grading.Options.{GradingOption}
use edtech_lms_rpi_api.Grading.Normalise.{typed_answer_equals}
use edtech_lms_rpi_api.Grading.Prototypes.{
  or_else, usable_text, value_text, typed_loop, grade_f_option1, grade_f_option4,
}

-- A wrong part decides; otherwise a part that has nothing to compare with.
abbrev pub overall : Bool → Bool → Option Bool
overall wrong missing = if wrong then some false else if missing then none else some true

abbrev pub is_wrong : Option Bool → Bool
is_wrong none = false
is_wrong (some right) = not right

abbrev pub is_missing : Option Bool → Bool
is_missing none = true
is_missing (some right) = false

module _ (js : Js) where
  open js use {Num}

  module _ (expected : GradingOption Num → Option String) (entries : List (String × String)) where
    -- One option: whether the text typed for it is the expected one, if there is an expected one.
    abbrev pub typed_check : GradingOption Num → Option Bool
    typed_check o = elim (expected o) [
      | none ↦ none
      | some text ↦
          some (typed_answer_equals js (or_else "" (lookup o.questionoptionid entries)) text)
    ]

    typed_loop-eq :
        (ungradable : Bool) (options : List (GradingOption Num))
        → typed_loop js expected ungradable options entries
          ≡ overall
              (any (λ o. is_wrong (typed_check o)) options)
              (ungradable || any (λ o. is_missing (typed_check o)) options)
    unfolding typed_loop
    typed_loop-eq ungradable [] = ground arith
    typed_loop-eq ungradable (o ∷ options) = elim (Option-cases (expected o)) [
      | inl gone ↦ ground (arith, typed_loop-eq true options)
      | inr (text, e) ↦ ground (arith, typed_loop-eq ungradable options)
    ]

  -- Texts typed for the options of FOption1 and FOption4 are wrong as soon as one of them is not the
  -- expected one, whatever the others have; with nothing wrong there is no verdict if an option has
  -- no expected text, and they are right otherwise.
  pub typed_graders-eq :
      (options : List (GradingOption Num)) (entries : List (String × String))
      → let text = typed_check (λ o. usable_text o.questionoptiontext) entries in
        let number = typed_check (value_text js) entries in
        (grade_f_option1 js options entries
          ≡ overall (any (λ o. is_wrong (text o)) options) (any (λ o. is_missing (text o)) options))
        × (grade_f_option4 js options entries
            ≡ overall
                (any (λ o. is_wrong (number o)) options)
                (any (λ o. is_missing (number o)) options))
  unfolding grade_f_option1 grade_f_option4
  typed_graders-eq options entries = (
    typed_loop-eq (λ o. usable_text o.questionoptiontext) entries false options,
    typed_loop-eq (value_text js) entries false options,
  )
