-- ===== src/Grading/Templates.antt =====
-- src/business/grading/templates.ts: the graders of templates 1 to 8.
use edtech_lms_rpi_api.Prelude.{
  Bool, true, false, not, ◌&&◌, Option, none, some, List, [], ◌∷◌, map, String, ◌==◌, if◌then◌else◌,
  eqb, ltb, length, filter, every, contains, set_of,
}
use edtech_lms_rpi_api.Js.{Js, lookup}
use edtech_lms_rpi_api.Grading.Options.{GradingOption}

module _ {N : Type 0} where
  abbrev pub option_id : GradingOption N → String
  option_id o = o.questionoptionid

  -- `new Map(options.map((o) => [o.questionoptionid, o]))`: the last option of an id counts.
  unfoldable pub by_id : List (GradingOption N) → String → Option (GradingOption N)
  by_id [] id = none
  by_id (o ∷ options) id = elim (by_id options id) [
    | some later ↦ some later
    | none ↦ if o.questionoptionid == id then some o else none
  ]

  unfoldable pub correct_ids : List (GradingOption N) → List String
  correct_ids options = set_of (map option_id (filter (λ o. o.questionoptioniscorrect) options))

  unfoldable pub grade_choice : List (GradingOption N) → List String → Bool
  unfolding correct_ids
  grade_choice options selected =
      if not (eqb (length (set_of selected)) (length selected))
      then false
      else if not (eqb (length (set_of selected)) (length (correct_ids options)))
      then false
      else every (contains (correct_ids options)) (set_of selected)

  -- `pairs[id] !== id` fails for every option.
  unfoldable pub grade_match : List (GradingOption N) → List (String × String) → Bool
  unfolding lookup
  grade_match [] pairs = true
  grade_match (o ∷ options) pairs =
      let rest = grade_match options pairs in
      elim (lookup o.questionoptionid pairs) [
        | none ↦ false
        | some dragged ↦ if dragged == o.questionoptionid then rest else false
      ]

module _ (js : Js) where
  open js use {Num}

  -- The loop of `gradeOrder`, from the current sequence number.
  unfoldable pub order_loop : List (GradingOption Num) → Num → List String → Bool
  unfolding by_id
  order_loop options current [] = true
  order_loop options current (id ∷ order) = elim (by_id options id) [
    | none ↦ false
    | some opt ↦ elim opt.questionoptionsequence [
      | none ↦ false
      | some sequence ↦
          let rest = order_loop options sequence order in
          if js.num_lt sequence current then false else rest
    ]
  ]

  unfoldable pub grade_order : List (GradingOption Num) → List String → Bool
  unfolding order_loop
  grade_order options order =
      if not (eqb (length order) (length options))
      then false
      else if not (eqb (length (set_of order)) (length order))
      then false
      else order_loop options js.zero order

  -- The loop of `gradeBlanks`. The flag is `requiredCount > 1`.
  unfoldable pub blanks_loop : List (GradingOption Num) → Bool → Num → List String → Bool
  unfolding by_id
  blanks_loop options several current [] = true
  blanks_loop options several current (id ∷ filled) = elim (by_id options id) [
    | none ↦ false
    | some opt ↦ elim opt.questionoptionsequence [
      | none ↦ false
      | some sequence ↦
          let rest = blanks_loop options several sequence filled in
          if js.num_lt sequence current
          then false
          else if several && not opt.questionoptioniscorrect
          then false
          else rest
    ]
  ]

  unfoldable pub grade_blanks : List (GradingOption Num) → List String → Bool
  unfolding blanks_loop
  grade_blanks options filled =
      if not (eqb (length filled) (length options))
      then false
      else if not (eqb (length (set_of filled)) (length filled))
      then false
      else blanks_loop options (ltb 1 (length options)) js.zero filled
