-- ===== src/Grading/Ordering.antt =====
-- What the order and fill-the-blank graders of src/business/grading/templates.ts decide.
use edtech_lms_rpi_api.Prelude.{
  ◌≡◌, refl, ◌↔◌, inl, inr, Bool, true, false, not, ◌&&◌, ◌||◌, Option, some, none, List, [], ◌∷◌,
  map, String, eq_iff, leb, ltb, arith, length, every, contains, IsNodup, IsSubset,
  length-set_of_iff, subset_of_length-eq, length-map, Option-cases, All, eq_of_iff,
}
use edtech_lms_rpi_api.Js.{Js}
use edtech_lms_rpi_api.Grading.Options.{GradingOption}
use edtech_lms_rpi_api.Grading.Templates.{
  option_id, by_id, order_loop, grade_order, blanks_loop, grade_blanks,
}
use edtech_lms_rpi_api.Grading.Choices.{SameMembers}

-- What the graders need of `<` on the finite numbers: its negation is transitive.
pub record IsOrdered (js : Js) : Type 0 where
  pub not_lt_trans :
      (a b c : js.Num)
      → js.is_finite a ≡ true
      → js.is_finite b ≡ true
      → js.is_finite c ≡ true
      → js.num_lt b a ≡ false
      → js.num_lt c b ≡ false
      → js.num_lt c a ≡ false
  pub zero_finite : js.is_finite js.zero ≡ true

module _ {N : Type 0} where
  -- The sequence number of the option that an id names.
  abbrev pub sequence_of : List (GradingOption N) → String → Option N
  sequence_of options id = elim (by_id options id) [
    | none ↦ none
    | some opt ↦ opt.questionoptionsequence
  ]

  by_id-contains :
      (options : List (GradingOption N)) (id : String) (o : GradingOption N)
      → by_id options id ≡ some o
      → contains (map option_id options) id ≡ true
  unfolding by_id contains
  by_id-contains [] id o h = ground arith
  by_id-contains (p ∷ options) id o h = elim (Option-cases (by_id options id)) [
    | inl gone ↦ ground arith
    | inr (q, found) ↦ ground (arith, by_id-contains options id q found)
  ]

abbrev Pairwise {ℓ κ} : {A : Type ℓ} → (A → A → Type κ) → List A → Type κ
Pairwise R [] = Unit
Pairwise R (x ∷ xs) = All (R x) xs × Pairwise R xs

module _ (js : Js) (options : List (GradingOption js.Num)) where
  open js use {Num}

  -- The id names an option whose sequence number is not below the given one.
  abbrev pub IsFrom : Num → String → Type 0
  IsFrom current id = (s : Num) × (sequence_of options id ≡ some s) × (js.num_lt s current ≡ false)

  -- The second id's sequence number is not below the first's.
  abbrev pub InOrder : String → String → Type 0
  InOrder x y =
      (a : Num) × (b : Num) × (sequence_of options x ≡ some a)
      × (sequence_of options y ≡ some b)
      × (js.num_lt b a ≡ false)

  abbrev pub IsInSequence : List String → Type 0
  IsInSequence order = All (IsFrom js.zero) order × Pairwise InOrder order

  -- Every sequence number is finite, as `asNumber` ensures.
  abbrev pub HasFiniteSequences : Type 0
  HasFiniteSequences =
      (id : String) (s : Num) → sequence_of options id ≡ some s → js.is_finite s ≡ true

  raise :
      IsOrdered js
      → HasFiniteSequences
      → (current s : Num) → js.is_finite current ≡ true
      → js.is_finite s ≡ true
      → js.num_lt s current ≡ false
      → (order : List String) → All (IsFrom s) order
      → All (IsFrom current) order
  raise L F current s fc fs le [] h = tt
  raise L F current s fc fs le (id ∷ order) ((t, named, above), h) = (
    (t, named, L.not_lt_trans current s t fc fs (F id t named) le above),
    raise L F current s fc fs le order h,
  )

  follow :
      (x : String) (s : Num)
      → sequence_of options x ≡ some s
      → (order : List String) → All (IsFrom s) order
      → All (InOrder x) order
  follow x s named [] h = tt
  follow x s named (id ∷ order) ((t, later, above), h) =
      ((s, t, named, later, above), follow x s named order h)

  lead :
      (x : String) (s current : Num)
      → sequence_of options x ≡ some s
      → (order : List String) → All (IsFrom current) order
      → All (InOrder x) order
      → All (IsFrom s) order
  lead x s current named [] h k = tt
  lead x s current named (id ∷ order) (from, h) ((a, b, ea, eb, le), ks) =
      ((b, eb, ground arith), lead x s current named order h ks)

  order_loop-step :
      (current : Num) (id : String) (order : List String)
      → order_loop js options current (id ∷ order) ≡ true
      → (s : Num) × (sequence_of options id ≡ some s)
        × (js.num_lt s current ≡ false)
        × (order_loop js options s order ≡ true)
  unfolding order_loop
  order_loop-step current id order h = elim (Option-cases (by_id options id)) [
    | inl gone ↦ ground arith
    | inr (opt, found) ↦ elim (Option-cases opt.questionoptionsequence) [
      | inl gone ↦ ground arith
      | inr (s, named) ↦ (s, ground arith, ground arith, ground arith)
    ]
  ]

  order_loop_sound :
      IsOrdered js
      → HasFiniteSequences
      → (current : Num) (order : List String) → js.is_finite current ≡ true
      → order_loop js options current order ≡ true
      → All (IsFrom current) order × Pairwise InOrder order
  order_loop_sound L F current [] f h = (tt, tt)
  order_loop_sound L F current (id ∷ order) f h =
      let (s, named, le, rest) = order_loop-step current id order h in
      let fs = F id s named in
      let (above, sorted) = order_loop_sound L F s order fs rest in
      (
        ((s, named, le), raise L F current s f fs le order above),
        (follow id s named order above, sorted),
      )

  order_loop_complete :
      (current : Num) (order : List String)
      → All (IsFrom current) order
      → Pairwise InOrder order
      → order_loop js options current order ≡ true
  unfolding order_loop
  order_loop_complete current [] h k = refl
  order_loop_complete current (id ∷ order) ((s, named, le), h) (after, k) = ground (
    arith,
    order_loop_complete s order (lead id s current named order h after) k,
    Option-cases (by_id options id),
  )

  order_loop-contains :
      (current : Num) (order : List String)
      → order_loop js options current order ≡ true
      → IsSubset order (map option_id options)
  unfolding contains
  order_loop-contains current [] h a m = ground arith
  order_loop-contains current (id ∷ order) h a m =
      let (s, named, _, rest) = order_loop-step current id order h in
      elim (Option-cases (by_id options id)) [
        | inl gone ↦ ground arith
        | inr (opt, found) ↦ ground (
          arith,
          by_id-contains options id opt found,
          order_loop-contains s order rest a,
          eq_iff id a,
        )
      ]

  -- Over finite sequence numbers, an order is graded correct exactly when it has as many ids as
  -- there are options, repeats none, each id names an option with a sequence number from 0 on,
  -- and of any two ids the later one's number is not below the earlier one's.
  pub grade_order_iff :
      IsOrdered js
      → HasFiniteSequences
      → (order : List String)
      → (grade_order js options order ≡ true)
        ↔ ((length order ≡ length options) × IsNodup order × IsInSequence order)
  unfolding grade_order
  grade_order_iff L F order = (
    λ h. (
      ground arith,
      (length-set_of_iff order).0 (ground arith),
      order_loop_sound L F js.zero order L.zero_finite (ground arith),
    ),
    λ (len, nodup, (above, sorted)).
        ground (
          arith,
          (length-set_of_iff order).1 nodup,
          order_loop_complete js.zero order above sorted,
        ),
  )

  -- An order that is graded correct is a permutation of the options: it has exactly their ids,
  -- and the options have distinct ids.
  grade_order-SameMembers :
      (order : List String)
      → grade_order js options order ≡ true
      → SameMembers order (map option_id options) × IsNodup (map option_id options)
  unfolding grade_order
  grade_order-SameMembers order h =
      let ids = map option_id options in
      let nodup = (length-set_of_iff order).0 (ground arith) in
      let inside = order_loop-contains js.zero order (ground arith) in
      let len : length order ≡ length options = ground arith in
      let (back, distinct) =
        subset_of_length-eq order ids nodup inside
          (omega (arith, length-map option_id options, len)) in
      ((λ a. eq_of_iff _ _ (inside a) (back a)), distinct)

  -- The option that an id names is marked correct.
  abbrev pub is_marked : String → Bool
  is_marked id = elim (by_id options id) [ none ↦ false | some o ↦ o.questionoptioniscorrect ]

  blanks_loop-eq :
      (several : Bool) (current : Num) (filled : List String)
      → blanks_loop js options several current filled
        ≡ (order_loop js options current filled && (not several || every is_marked filled))
  unfolding blanks_loop order_loop
  blanks_loop-eq several current [] = ground arith
  blanks_loop-eq several current (id ∷ filled) = elim (Option-cases (by_id options id)) [
    | inl gone ↦ ground arith
    | inr (opt, found) ↦ elim (Option-cases opt.questionoptionsequence) [
      | inl gone ↦ ground arith
      | inr (s, named) ↦ ground (arith, blanks_loop-eq several s filled)
    ]
  ]

  -- Blanks are graded as an order, and with more than one option every filled one must be marked
  -- correct as well.
  pub grade_blanks-eq :
      (filled : List String)
      → grade_blanks js options filled
        ≡ (grade_order js options filled && (leb (length options) 1 || every is_marked filled))
  unfolding grade_blanks grade_order
  grade_blanks-eq filled = ground (arith, blanks_loop-eq (ltb 1 (length options)) js.zero filled)
