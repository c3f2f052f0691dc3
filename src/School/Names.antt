-- ===== src/School/Names.antt =====
-- Which school a name means (src/business/school-identity.ts).
use edtech_lms_rpi_api.Prelude.{
  ◌≡◌, refl, ◌⊎◌, inl, inr, Bool, true, false, not, ◌&&◌, Option, some, List, [], ◌∷◌, String, ltb,
  arith, length, filter, All, All-filter, Bool-cases, ok,
}
use edtech_lms_rpi_api.Prelude.Text.{trim}
use edtech_lms_rpi_api.Js.{Js}
use edtech_lms_rpi_api.School.{
  SchoolRow, SchoolDb, FindByNameOptions, given, is_live, is_same_school_name, same_name_candidates,
  live_if, the_one, find_school_id_by_name,
}

-- The school is deleted, or it has the id.
abbrev pub IsOnlyLive : String → SchoolRow → Type 0
IsOnlyLive id s = (s.isdeleted ≡ true) ⊎ (s.schoolid ≡ id)

-- What holds of a list that is filtered holds of its head, if that passes, and of the rest.
All-filter-kept {ℓ κ} :
    {A : Type ℓ} (P : A → Type κ) (p : A → Bool) (x : A) (xs : List A)
    → p x ≡ true
    → All P (filter p (x ∷ xs))
    → P x × All P (filter p xs)
All-filter-kept P p x xs kept h = rw kept at h

filter-IsOnlyLive :
    (id : String) (rows : List SchoolRow)
    → All (IsOnlyLive id) (filter is_live rows)
    → All (IsOnlyLive id) rows
filter-IsOnlyLive id [] h = tt
filter-IsOnlyLive id (s ∷ rows) h = elim (Bool-cases s.isdeleted) [
  | inl gone ↦ (inl gone, filter-IsOnlyLive id rows (rw (gone, not) at h))
  | inr live ↦
      let (here, later) = All-filter-kept (IsOnlyLive id) is_live s rows (rw (live, not) refl) h in
      (here, filter-IsOnlyLive id rows later)
]

module _ (js : Js) (db : SchoolDb) where
  live_if-IsOnlyLive :
      (test : Bool) (id : String) (rows : List SchoolRow)
      → All (IsOnlyLive id) (live_if js db test rows)
      → All (IsOnlyLive id) rows
  live_if-IsOnlyLive true id rows h = filter-IsOnlyLive id rows h
  live_if-IsOnlyLive false id rows h = h

  live_if-All :
      (P : SchoolRow → Type 0) (test : Bool) (rows : List SchoolRow)
      → All P rows
      → All P (live_if js db test rows)
  live_if-All P true rows h = All-filter P is_live rows h
  live_if-All P false rows h = h

  the_one-eq :
      (rows : List SchoolRow) (id : String)
      → the_one js db rows ≡ ok (some id)
      → (s : SchoolRow) × (rows ≡ s ∷ []) × (s.schoolid ≡ id)
  the_one-eq [] id h = ground arith
  the_one-eq (s ∷ []) id h = (s, refl, ground arith)
  the_one-eq (s ∷ t ∷ rest) id h = ground arith

  candidates-All :
      (P : SchoolRow → Type 0) (text : String) (rows : List SchoolRow)
      → All P rows
      → All
          (λ s. P s × (is_same_school_name js (some s.schoolname) (some text) ≡ true))
          (filter (λ s. is_same_school_name js (some s.schoolname) (some text)) rows)
  candidates-All P text [] h = tt
  candidates-All P text (s ∷ rows) h =
      elim (Bool-cases (is_same_school_name js (some s.schoolname) (some text))) [
        | inl same ↦ rw same ((h.0, same), candidates-All P text rows h.1)
        | inr other ↦ rw other (candidates-All P text rows h.1)
      ]

  -- A name that is not blank means a school only if that school has what all rows have that the
  -- query for the name returns, its stored name is the same text, and every other such row of the
  -- same name is deleted or has the same id.
  pub find_school_id_by_name_sound :
      (P : SchoolRow → Type 0) (name : Option String) (text : String) (options : FindByNameOptions)
      (id : String)
      → given name ≡ some text
      → All P (db.named (js.nfc (trim text)))
      → find_school_id_by_name js db name options ≡ ok (some id)
      → ((s : SchoolRow) × (s.schoolid ≡ id)
          × P s
          × (is_same_school_name js (some s.schoolname) (some text) ≡ true))
        × All (IsOnlyLive id) (same_name_candidates js db text)
  unfolding find_school_id_by_name
  find_school_id_by_name_sound P name text options id named all h =
      let rows = same_name_candidates js db text in
      let first = live_if js db options.live_only rows in
      let test = ltb 1 (length first) && not options.strict in
      let picked : the_one js db (live_if js db test first) ≡ ok (some id) =
        rw (named, find_school_id_by_name) at h in
      let (s, only, same) = the_one-eq _ id picked in
      let held =
        live_if-All _ test first
          (live_if-All _ options.live_only rows (candidates-All P text _ all)) in
      let (p, alike) = (rw only at held).0 in
      (
        (s, same, p, alike),
        live_if-IsOnlyLive options.live_only id rows
            (live_if-IsOnlyLive test id first (rw only (inr same, tt))),
      )
