-- ===== src/School/Import/Uncached.antt =====
-- The maps that the roster import keeps (src/business/school-identity.ts) change nothing: each row
-- is placed as it would be alone.
use edtech_lms_rpi_api.Prelude.{
  ◌≡◌, refl, ◌∙◌, sym, ap, inl, inr, true, not, Option, none, some, List, [], ◌∷◌, String, ◌==◌,
  eq_iff, eqb, eqb_iff, arith, length, filter, All, Bool-cases, Option-cases, Result, ok, err,
  ◌>>=◌,
}
use edtech_lms_rpi_api.Prelude.Text.{trim}
use edtech_lms_rpi_api.Js.{Js, lookup}
use edtech_lms_rpi_api.School.{
  SchoolDb, SchoolError, given, RosterRow, Cache, find_school_id_by_name, strictly,
}
use edtech_lms_rpi_api.School.Import.{
  PlacedRow, stored_name, is_given, keep_id, cached_name, cached_id, place_by_id, place_by_name,
  import_loop, with_import_school_ids, with_required_school_ids,
}

module _ (P : String × Option String → Type 0) where
  lookup-All :
      (m : Cache) (k : String) (v : Option String) → All P m → lookup k m ≡ some v → P (k, v)
  unfolding lookup
  lookup-All [] k v h e = ground arith
  lookup-All ((j, w) ∷ m) k v h e = elim (Bool-cases (j == k)) [
    | inl same ↦ let at : w ≡ v = ground arith in rw (← at, ← (eq_iff j k).0 same) h.0
    | inr other ↦ lookup-All m k v h.1 (ground arith)
  ]

bind_assoc {ℓ κ ι} :
    {A : Type ℓ} {B : Type κ} {C : Type ι} (m : Result SchoolError A) (f : A → Result SchoolError B)
    (g : B → Result SchoolError C)
    → ((m >>= f) >>= g) ≡ (m >>= λ a. f a >>= g)
bind_assoc (ok a) f g = refl
bind_assoc (err e) f g = refl

bind-eq-ok {ℓ κ} :
    {A : Type ℓ} {B : Type κ} (m : Result SchoolError A) (f : A → Result SchoolError B) {b : B}
    → (m >>= f) ≡ ok b
    → (a : A) × (m ≡ ok a) × (f a ≡ ok b)
bind-eq-ok (ok a) f h = (a, refl, h)
bind-eq-ok (err e) f h = cc

-- A step that keeps a map gives what the plain step gives, and leaves a map with the invariant.
data Follows {A : Type 0} (P : Cache → Type 0)
    : Result SchoolError (A × Cache) → Result SchoolError A → Type 0 where
  failed : (e : SchoolError) → Follows P (err e) (err e)
  done : (a : A) (c : Cache) → P c → Follows P (ok (a, c)) (ok a)

module _ (js : Js) (db : SchoolDb) where
  -- The row placed alone.
  abbrev plain_id : RosterRow → Result SchoolError (Option String)
  plain_id row = elim (given row.schoolid) [
    | none ↦ ok none
    | some sent ↦ keep_id js db (trim sent) (stored_name (db.by_id (trim sent))) row.schoolname
  ]

  abbrev plain_name : RosterRow → Option String → Result SchoolError (Option String)
  plain_name row (some id) = ok (some id)
  plain_name row none = elim (given row.schoolname) [
    | none ↦ ok none
    | some name ↦ find_school_id_by_name js db (some name) strictly
  ]

  -- A row placed alone: by its id, and then by its name.
  unfoldable pub place_row : RosterRow → Result SchoolError (Option String)
  place_row row = plain_id row >>= plain_name row

  unfoldable pub place_rows : List RosterRow → Result SchoolError (List PlacedRow)
  unfolding place_row
  place_rows [] = ok []
  place_rows (row ∷ rows) = place_row row >>= λ id.
      place_rows rows >>= λ placed. ok (record { row = row; schoolid = id } ∷ placed)

  abbrev IsStored : String × Option String → Type 0
  IsStored (id, stored) = stored ≡ stored_name (db.by_id id)

  abbrev IsFound : String × Option String → Type 0
  IsFound (name, id) = find_school_id_by_name js db (some name) strictly ≡ ok id

  keep-Follows :
      (r : Result SchoolError (Option String)) (c : Cache)
      → All IsStored c
      → Follows (All IsStored) (r >>= λ id. ok (id, c)) r
  keep-Follows (ok id) c h = done id c h
  keep-Follows (err e) c h = failed e

  add-Follows :
      (name : String) (c : Cache)
      → All IsFound c
      → (r : Result SchoolError (Option String))
      → find_school_id_by_name js db (some name) strictly ≡ r
      → Follows (All IsFound) (r >>= λ id. ok (id, (name, id) ∷ c)) r
  add-Follows name c h (ok id) e = done id _ (e, h)
  add-Follows name c h (err x) e = failed x

  place_by_id-Follows :
      (c : Cache) (row : RosterRow)
      → All IsStored c
      → Follows (All IsStored) (place_by_id js db c row) (plain_id row)
  place_by_id-Follows c row h = elim (Option-cases (given row.schoolid)) [
    | inl gone ↦ rw (gone, place_by_id, plain_id) (done none c h)
    | inr (sent, e) ↦ elim (Option-cases (lookup (trim sent) c)) [
      | inl new ↦ rw (e, place_by_id, plain_id) (rw (new, cached_name) (keep-Follows _ _ (refl, h)))
      | inr (stored, old) ↦
          rw (e, place_by_id, plain_id)
            (rw (old, cached_name)
              (rw (← lookup-All IsStored c (trim sent) stored h old) (keep-Follows _ c h)))
    ]
  ]

  cached_id-Follows :
      (c : Cache) (name : String)
      → All IsFound c
      → Follows
          (All IsFound)
          (cached_id js db c name)
          (find_school_id_by_name js db (some name) strictly)
  cached_id-Follows c name h = elim (Option-cases (lookup name c)) [
    | inl new ↦ rw (new, cached_id) (add-Follows name c h _ refl)
    | inr (id, old) ↦ rw (old, cached_id) (rw (lookup-All IsFound c name id h old) (done id c h))
  ]

  place_by_name-Follows :
      (c : Cache) (row : RosterRow) (kept : Option String)
      → All IsFound c
      → Follows (All IsFound) (place_by_name js db c row kept) (plain_name row kept)
  place_by_name-Follows c row (some id) h = done (some id) c h
  place_by_name-Follows c row none h = elim (Option-cases (given row.schoolname)) [
    | inl gone ↦ rw (gone, place_by_name, plain_name) (done none c h)
    | inr (name, e) ↦ rw (e, place_by_name, plain_name) (cached_id-Follows c name h)
  ]

  -- A step in front of a continuation that gives the same with every map that the step may leave.
  bind-Follows {ℓ} :
      {A : Type 0} {B : Type ℓ} (P : Cache → Type 0) (m : Result SchoolError (A × Cache))
      (r : Result SchoolError A) (f : A × Cache → Result SchoolError B)
      (g : A → Result SchoolError B)
      → Follows P m r
      → ((a : A) (c : Cache) → P c → f (a, c) ≡ g a)
      → (m >>= f) ≡ (r >>= g)
  bind-Follows P m r f g (failed e) same = refl
  bind-Follows P m r f g (done a c h) same = same a c h

  -- What follows the placing of a row.
  abbrev after : RosterRow → List RosterRow → Option String → Result SchoolError (List PlacedRow)
  after row rows id =
      place_rows rows >>= λ placed. ok (record { row = row; schoolid = id } ∷ placed)

  abbrev continue :
      RosterRow
      → List RosterRow
      → Cache
      → Option String × Cache
      → Result SchoolError (List PlacedRow)
  continue row rows by_id (id, by_name) = import_loop js db by_id by_name rows >>= λ placed.
      ok (record { row = row; schoolid = id } ∷ placed)

  import_loop-eq :
      (by_id by_name : Cache) (rows : List RosterRow)
      → All IsStored by_id
      → All IsFound by_name
      → import_loop js db by_id by_name rows ≡ place_rows rows
  unfolding import_loop place_rows
  import_loop-eq by_id by_name [] h k = refl
  import_loop-eq by_id by_name (row ∷ rows) h k =
      bind-Follows (All IsStored) _ (plain_id row) _
        (λ kept. plain_name row kept >>= after row rows) (place_by_id-Follows by_id row h)
        (λ kept by_id' h'.
          bind-Follows (All IsFound) _ (plain_name row kept) (λ r. continue row rows by_id' r)
            (after row rows) (place_by_name-Follows by_name row kept k)
            (λ id by_name' k'. rw (import_loop-eq by_id' by_name' rows h' k')))
      ∙ sym (bind_assoc (plain_id row) (plain_name row) (after row rows))

  -- Placing a roster with the two maps gives what placing each row alone gives: the same ids, and
  -- the same error if there is one.
  pub with_import_school_ids-eq :
      (rows : List RosterRow) → with_import_school_ids js db rows ≡ place_rows rows
  unfolding with_import_school_ids
  with_import_school_ids-eq rows = import_loop-eq [] [] rows tt tt

  -- A row has an id that is not blank.
  abbrev pub IsPlaced : PlacedRow → Type 0
  IsPlaced p = is_given p.schoolid ≡ true

  All-IsPlaced :
      (placed : List PlacedRow)
      → length (filter (λ p. not (is_given p.schoolid)) placed) ≡ 0
      → All IsPlaced placed
  All-IsPlaced [] h = tt
  All-IsPlaced (p ∷ placed) h = elim (Bool-cases (is_given p.schoolid)) [
    | inl there ↦ (there, All-IsPlaced placed (rw (there, not) at h))
    | inr gone ↦ absurd (omega (arith, rw (gone, not) at h))
  ]

  -- Rows that are required to have a school are accepted only if each of them, placed alone, has
  -- an id that is not blank; then they are the rows placed alone.
  pub with_required_school_ids-IsPlaced :
      (rows : List RosterRow) (placed : List PlacedRow)
      → with_required_school_ids js db rows ≡ ok placed
      → (place_rows rows ≡ ok placed) × All IsPlaced placed
  unfolding with_required_school_ids
  with_required_school_ids-IsPlaced rows placed h =
      let (all_placed, e, k) = bind-eq-ok (with_import_school_ids js db rows) _ h in
      elim (Bool-cases (eqb (length (filter (λ p. not (is_given p.schoolid)) all_placed)) 0)) [
        | inl none_left ↦
            let same : all_placed ≡ placed = ground arith in
            (
              sym (with_import_school_ids-eq rows) ∙ e ∙ ap ok same,
              rw (← same) (All-IsPlaced all_placed ((eqb_iff _ 0).0 none_left)),
            )
        | inr some_left ↦ ground arith
      ]
