-- ===== src/Roster/Usable.antt =====
-- src/business/roster-refs.ts: every row that is written has a usable list of curricula.
use mathlib.Core.Path.{subst}
use edtech_lms_rpi_api.Prelude.{
  ℕ, ◌≡◌, ◌⊎◌, ap, sym, ok-injective, ◌∙◌, suc, refl, Bool, true, false, List, [], ◌∷◌, String,
  eq_iff, ltb, leb, length, every, All, ok, arith, Bool-cases, &&-eq-true, inl, inr,
}
use edtech_lms_rpi_api.Prelude.Text.{is_blank, utf16_length, utf16_length-pos}
use edtech_lms_rpi_api.Js.{Value, str, arr, obj, end, field, nil, cons, Fields, get, property}
use edtech_lms_rpi_api.Roster.{
  CurriculumLists, rows_or_refusal, kept, given_list, missing, usable_list_id, has_usable_list,
  assign, with_property, by_curriculum, outcome, filled_row, lists_loop, with_curriculum_lists,
}

no_lines : (lines : List ℕ) → ltb 0 (length lines) ≡ false → lines ≡ []
no_lines [] h = refl
no_lines (n ∷ lines) h = absurd (ground (arith, h))

module _ {N : Type 0} where
  -- A `curriculumid` that is a text is at most 64 long.
  abbrev is_short : Value N → Bool
  is_short (str s) = leb (utf16_length s) 64
  is_short _ = true

  abbrev pub has_short_curriculum : Value N → Bool
  has_short_curriculum row = is_short (get (get row "student") "curriculumid")

  abbrev pub IsListed : Value N → Type 0
  IsListed row = has_usable_list (get row "student") ≡ true

  property-assign :
      (fs : Fields N) (key : String) (v : Value N) → property (assign fs key v) key ≡ v
  unfolding property
  property-assign end key v = ground (arith, (eq_iff key key).1 refl)
  property-assign (field k w fs) key v =
      ground (arith, property-assign fs key v, (eq_iff key key).1 refl)

  get-with_property :
      (x : Value N) (key : String) (v : Value N) → get (with_property x key v) key ≡ v
  unfolding property
  get-with_property (obj fs) key v = property-assign fs key v
  get-with_property _ key v = ground (arith, (eq_iff key key).1 refl)

  by_curriculum-cases :
      (v : Value N)
      → ((id : String) × (v ≡ str id) × (is_blank id ≡ false) × (by_curriculum v ≡ given_list id))
        ⊎ (by_curriculum v ≡ missing)
  by_curriculum-cases (str s) = elim (Bool-cases (is_blank s)) [
    | inl blank ↦ inr (ground (arith, blank))
    | inr text ↦ inl (s, refl, text, ground (arith, text))
  ]
  by_curriculum-cases _ = inr refl

  outcome-cases :
      (row : Value N)
      → (IsListed row × (outcome row ≡ kept))
        ⊎ ((id : String) × (get (get row "student") "curriculumid" ≡ str id)
            × (is_blank id ≡ false)
            × (outcome row ≡ given_list id))
        ⊎ (outcome row ≡ missing)
  unfolding outcome
  outcome-cases row = elim (Bool-cases (has_usable_list (get row "student"))) [
    | inl listed ↦ inl (listed, ground (arith, listed))
    | inr unlisted ↦
        inr (rw unlisted (by_curriculum-cases (get (get row "student") "curriculumid")))
  ]

  filled_row-IsListed :
      (row : Value N) (id : String)
      → is_blank id ≡ false
      → leb (utf16_length id) 64 ≡ true
      → IsListed (filled_row row id)
  unfolding filled_row usable_list_id
  filled_row-IsListed row id h k =
      rw
        (
          get-with_property row "student"
              (with_property (get row "student") "curriculumids" (arr (cons (str id) nil))),
          get-with_property (get row "student") "curriculumids" (arr (cons (str id) nil)),
        )
        (ground (arith, k, utf16_length-pos id h))

  rows_or_refusal-eq :
      (l : CurriculumLists N) (stored : List (Value N)) (filled : ℕ)
      → rows_or_refusal l ≡ ok (stored, filled)
      → (l.lines ≡ []) × (l.rows ≡ stored)
  rows_or_refusal-eq l stored filled h = elim (Bool-cases (ltb 0 (length l.lines))) [
    | inl refused ↦ absurd (ground (arith, rw refused at h))
    | inr fine ↦ (no_lines l.lines fine, ap (λ p. p.0) (ok-injective _ _ (rw fine at h)))
  ]

  lists_loop-IsListed :
      (at : ℕ) (rows : List (Value N))
      → every has_short_curriculum rows ≡ true
      → (lists_loop at rows).lines ≡ []
      → All IsListed (lists_loop at rows).rows
  unfolding lists_loop
  lists_loop-IsListed at [] short e = tt
  lists_loop-IsListed at (row ∷ rows) short lines =
      let (s, ss) = &&-eq-true (has_short_curriculum row) (every has_short_curriculum rows) short in
      let rest = lists_loop-IsListed (suc at) rows ss in
      elim (outcome-cases row) [
        | inl (listed, e) ↦ rw e (listed, rest (rw e at lines))
        | inr (inl (id, c, h, e)) ↦
            rw e (filled_row-IsListed row id h (rw c at s), rest (rw e at lines))
        | inr (inr e) ↦ absurd (ground (arith, rw e at lines))
      ]

  lists_loop-length :
      (at : ℕ) (rows : List (Value N)) → length (lists_loop at rows).rows ≡ length rows
  unfolding lists_loop
  lists_loop-length at [] = refl
  lists_loop-length at (row ∷ rows) =
      let rest = lists_loop-length (suc at) rows in
      elim (outcome-cases row) [
        | inl (listed, e) ↦ rw (e, rest) refl
        | inr (inl (id, c, h, e)) ↦ rw (e, rest) refl
        | inr (inr e) ↦ rw (e, rest) refl
      ]

  -- Rows that have a list are left as they are.
  lists_loop-listed :
      (at : ℕ) (rows : List (Value N))
      → All IsListed rows
      → lists_loop at rows ≡ record { rows = rows; filled = 0; lines = [] }
  unfolding lists_loop outcome
  lists_loop-listed at [] h = refl
  lists_loop-listed at (row ∷ rows) (h, hs) = rw (h, lists_loop-listed (suc at) rows hs) refl

  -- When no `curriculumid` of a roster is a text of more than 64 code units, a roster that is not
  -- refused is written with as many rows, every row has a usable list of curricula, and sending
  -- the written rows again leaves them as they are and fills none.
  pub with_curriculum_lists-IsListed :
      (rows stored : List (Value N)) (filled : ℕ)
      → every has_short_curriculum rows ≡ true
      → with_curriculum_lists rows ≡ ok (stored, filled)
      → (length stored ≡ length rows)
        × All IsListed stored
        × (with_curriculum_lists stored ≡ ok (stored, 0))
  unfolding with_curriculum_lists
  with_curriculum_lists-IsListed rows stored filled short h =
      let loop = lists_loop 0 rows in
      let (e, l) = rows_or_refusal-eq loop stored filled h in
      let listed = subst (All IsListed) l (lists_loop-IsListed 0 rows short e) in
      (
        ap length (sym l) ∙ lists_loop-length 0 rows,
        listed,
        rw (lists_loop-listed 0 stored listed) refl,
      )
