-- ===== src/Grading/Parsing.antt =====
-- What src/business/grading/option.ts accepts as the options of a question.
use edtech_lms_rpi_api.Prelude.{
  ◌<◌, ◌≡◌, refl, inl, inr, true, false, Option, some, none, List, [], ◌∷◌, String, arith, length,
  traverse, length-traverse, Bool-cases, Option-cases, All,
}
use edtech_lms_rpi_api.Prelude.Text.{is_empty}
use edtech_lms_rpi_api.Js.{Value, undefined, num, str, arr, Items, Js, get, items, as_string}
use edtech_lms_rpi_api.Grading.Options.{
  GradingOption, as_number, option_with_id, parse_option, parse_text, parse_array, parse_options,
}
use edtech_lms_rpi_api.Grading.Templates.{by_id}
use edtech_lms_rpi_api.Grading.Ordering.{HasFiniteSequences}

module _ (js : Js) where
  open js use {Num}

  as_number-finite : (v : Value Num) (n : Num) → as_number js v ≡ some n → js.is_finite n ≡ true
  unfolding as_number
  as_number-finite (num m) n h = ground arith
  as_number-finite (str s) n h = ground arith
  as_number-finite undefined n h = ground arith
  as_number-finite _ n h = ground arith

  abbrev pub IsFinite : Option Num → Type 0
  IsFinite none = Unit
  IsFinite (some n) = js.is_finite n ≡ true

  -- An option with a usable id whose numbers are finite.
  pub record IsUsable (o : GradingOption Num) : Type 0 where
    pub has_id : is_empty o.questionoptionid ≡ false
    pub finite_sequence : IsFinite o.questionoptionsequence
    pub finite_value : IsFinite o.questionoptionvalue

  IsFinite-as_number : (v : Value Num) → IsFinite (as_number js v)
  IsFinite-as_number v = elim (Option-cases (as_number js v)) [
    | inl gone ↦ rw gone tt
    | inr (n, e) ↦ rw e (as_number-finite v n e)
  ]

  parse_option-IsUsable :
      (raw : Value Num) (o : GradingOption Num) → parse_option js raw ≡ some o → IsUsable o
  unfolding parse_option
  parse_option-IsUsable raw o h = elim (Option-cases (as_string (get raw "questionoptionid"))) [
    | inl gone ↦ ground arith
    | inr (id, named) ↦ elim (Bool-cases (is_empty id)) [
      | inl empty ↦ ground arith
      | inr usable ↦
          let same : option_with_id js raw id ≡ o = ground arith in
          rw (← same) (record {
            has_id = usable;
            finite_sequence = IsFinite-as_number _;
            finite_value = IsFinite-as_number _;
          })
    ]
  ]

  traverse-IsUsable :
      (entries : List (Value Num)) (options : List (GradingOption Num))
      → traverse (parse_option js) entries ≡ some options
      → All IsUsable options
  traverse-IsUsable [] [] h = tt
  traverse-IsUsable [] (o ∷ options) h = ground arith
  traverse-IsUsable (e ∷ entries) [] h = tt
  traverse-IsUsable (e ∷ entries) (o ∷ options) h =
      (parse_option-IsUsable e o (ground arith), traverse-IsUsable entries options (ground arith))

  parse_array-eq-some :
      (value : Value Num) (options : List (GradingOption Num))
      → parse_array js value ≡ some options
      → (xs : Items Num) × (value ≡ arr xs)
        × (traverse (parse_option js) (items xs) ≡ some options)
        × (0 < length options)
  unfolding parse_array
  parse_array-eq-some (arr xs) [] h = ground arith
  parse_array-eq-some (arr xs) (o ∷ options) h = (xs, refl, ground arith, omega arith)
  parse_array-eq-some undefined options h = ground arith
  parse_array-eq-some _ options h = ground arith

  -- Accepted options come from an array, one option for each entry, none dropped; there is at
  -- least one, and each has an id that is not empty and only finite numbers.
  pub parse_options_valid :
      (raw : Value Num) (options : List (GradingOption Num))
      → parse_options js raw ≡ some options
      → (xs : Items Num) × (parse_text js raw ≡ some (arr xs))
        × (length options ≡ length (items xs))
        × (0 < length options)
        × All IsUsable options
  unfolding parse_options
  parse_options_valid raw options h = elim (Option-cases (parse_text js raw)) [
    | inl gone ↦ ground arith
    | inr (value, parsed) ↦
        let (xs, array, entries, some_left) = parse_array-eq-some value options (ground arith) in
        (
          xs,
          rw (← array) parsed,
          length-traverse _ _ _ entries,
          some_left,
          traverse-IsUsable (items xs) options entries,
        )
  ]

  by_id-IsUsable :
      (options : List (GradingOption Num))
      → All IsUsable options
      → (id : String) (o : GradingOption Num) → by_id options id ≡ some o
      → IsUsable o
  unfolding by_id
  by_id-IsUsable [] h id o e = ground arith
  by_id-IsUsable (p ∷ options) h id o e = elim (Option-cases (by_id options id)) [
    | inl gone ↦ let same : p ≡ o = ground arith in rw (← same) h.0
    | inr (q, found) ↦ by_id-IsUsable options h.1 id o (ground arith)
  ]

  pub HasFiniteSequences_of_usable :
      (options : List (GradingOption Num)) → All IsUsable options → HasFiniteSequences js options
  HasFiniteSequences_of_usable options h id s e = elim (Option-cases (by_id options id)) [
    | inl gone ↦ ground arith
    | inr (o, found) ↦
        let f = (by_id-IsUsable options h id o found).finite_sequence in
        let named : o.questionoptionsequence ≡ some s = ground arith in rw (named, IsFinite) at f
  ]
