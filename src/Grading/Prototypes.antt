-- ===== src/Grading/Prototypes.antt =====
-- src/business/grading/prototypes.ts: the graders of templates 18 to 24. `undefined` is `none`.
use edtech_lms_rpi_api.Prelude.{
  Bool, true, false, not, ◌&&◌, Option, none, some, List, [], ◌∷◌, String, if◌then◌else◌, get_elem?,
}
use edtech_lms_rpi_api.Prelude.Text.{is_empty}
use edtech_lms_rpi_api.Js.{Js, lookup}
use edtech_lms_rpi_api.Grading.Options.{GradingOption}
use edtech_lms_rpi_api.Grading.Templates.{by_id, grade_choice}
use edtech_lms_rpi_api.Grading.Answer.{Part}
use edtech_lms_rpi_api.Grading.Normalise.{typed_answer_equals}

abbrev pub or_else {ℓ} : {A : Type ℓ} → A → Option A → A
or_else d none = d
or_else d (some a) = a

-- `typeof text !== "string" || text === ""` fails.
abbrev pub usable_text : Option String → Option String
usable_text none = none
usable_text (some s) = if is_empty s then none else some s

abbrev no_part : Part
no_part = record { numerator = ""; denominator = "" }

module _ (js : Js) where
  open js use {Num}

  unfoldable pub grade_d_option1 : List (GradingOption Num) → List String → Bool
  unfolding grade_choice
  grade_d_option1 = grade_choice

  unfoldable pub grade_d_option3 : List (GradingOption Num) → List (String × Num) → Bool
  unfolding lookup
  grade_d_option3 [] counts = true
  grade_d_option3 (o ∷ options) counts =
      let rest = grade_d_option3 options counts in
      elim o.questionoptionvalue [
        | none ↦ rest
        | some value ↦
            if js.num_eq (or_else js.zero (lookup o.questionoptionid counts)) value
            then rest
            else false
      ]

  -- The total over the tapped options, from the total so far.
  total_from : List (GradingOption Num) → Num → List (String × Num) → Num
  unfolding by_id
  total_from options total [] = total
  total_from options total ((id, count) ∷ counts) =
      total_from options
        (elim (by_id options id) [
          | none ↦ total
          | some opt ↦ elim opt.questionoptionvalue [
            | none ↦ total
            | some value ↦ js.add total (js.mul value count)
          ]
        ])
        counts

  unfoldable pub grade_d_option4 :
      List (GradingOption Num) → List (String × Num) → Option Num → Option Bool
  unfolding total_from
  grade_d_option4 options counts none = none
  grade_d_option4 options counts (some correct) =
      some (js.num_eq (total_from options js.zero counts) correct)

  -- The loop that FOption1 and FOption4 share in shape: each option's expected text, or none.
  unfoldable pub typed_loop :
      (GradingOption Num → Option String)
      → Bool
      → List (GradingOption Num)
      → List (String × String)
      → Option Bool
  unfolding lookup
  typed_loop expected ungradable [] entries = if ungradable then none else some true
  typed_loop expected ungradable (o ∷ options) entries = elim (expected o) [
    | none ↦ typed_loop expected true options entries
    | some text ↦
        let rest = typed_loop expected ungradable options entries in
        if typed_answer_equals js (or_else "" (lookup o.questionoptionid entries)) text
        then rest
        else some false
  ]

  abbrev pub value_text : GradingOption Num → Option String
  value_text o = elim o.questionoptionvalue [ none ↦ none | some n ↦ some (js.text_of n) ]

  unfoldable pub grade_f_option1 : List (GradingOption Num) → List (String × String) → Option Bool
  unfolding typed_loop
  grade_f_option1 = typed_loop (λ o. usable_text o.questionoptiontext) false

  unfoldable pub grade_f_option4 : List (GradingOption Num) → List (String × String) → Option Bool
  unfolding typed_loop
  grade_f_option4 = typed_loop value_text false

  unfoldable pub grade_f_option2 : List (GradingOption Num) → List (String × String) → Option Bool
  unfolding lookup
  grade_f_option2 options entries = elim (get_elem? options 4) [
    | none ↦ none
    | some target ↦ elim (value_text target) [
      | none ↦ none
      | some text ↦
          some (typed_answer_equals js (or_else "" (lookup target.questionoptionid entries)) text)
    ]
  ]

  -- One compared part of a fraction: `none` is ungradable, `some false` a wrong part.
  check_part : Bool → Option String → String → Option Bool
  check_part compared expected typed =
      if not compared then some true else elim (usable_text expected) [
        | none ↦ none
        | some text ↦ some (typed_answer_equals js typed text)
      ]

  abbrev numerator_check : GradingOption Num → Part → Option Bool
  numerator_check o part =
      check_part (not o.questionoptionnumeratorisstatic) o.questionoptionnumeratorvalue
        part.numerator

  abbrev denominator_check : GradingOption Num → Part → Option Bool
  denominator_check o part =
      check_part (o.questionoptionisfraction && not o.questionoptiondenominatorisstatic)
        o.questionoptiondenominatorvalue part.denominator

  fraction_loop : Bool → List (GradingOption Num) → List (String × Part) → Option Bool
  unfolding lookup check_part
  fraction_loop ungradable [] parts = if ungradable then none else some true
  fraction_loop ungradable (o ∷ options) parts =
      let part = or_else no_part (lookup o.questionoptionid parts) in
      let skip = fraction_loop ungradable options parts in
      let flagged = fraction_loop true options parts in
      if o.questionoptionistext then skip else elim (numerator_check o part) [
        | some false ↦ some false
        | some true ↦ elim (denominator_check o part) [
          | some false ↦ some false
          | some true ↦ skip
          | none ↦ flagged
        ]
        | none ↦ elim (denominator_check o part) [ some false ↦ some false | _ ↦ flagged ]
      ]

  unfoldable pub grade_fraction : List (GradingOption Num) → List (String × Part) → Option Bool
  unfolding fraction_loop
  grade_fraction = fraction_loop false
