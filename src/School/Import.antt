-- ===== src/School/Import.antt =====
-- src/business/school-identity.ts: the school ids of roster rows that are about to be written, and
-- the roster of one school.
pub mod Uncached
use edtech_lms_rpi_api.Prelude.{
  ℕ, suc, ◌+◌, Bool, true, false, not, ◌&&◌, ◌||◌, Option, none, some, List, [], ◌∷◌, ◌++◌, map,
  String, ◌==◌, if◌then◌else◌, eqb, length, filter, Result, ok, err, ◌>>=◌,
}
use edtech_lms_rpi_api.Prelude.Text.{trim, is_blank}
use edtech_lms_rpi_api.Js.{Js, lookup}
use edtech_lms_rpi_api.School.{
  SchoolRow, SchoolDb, SchoolError, contradiction, no_school, roster_names_no_school, elsewhere,
  given, RosterRow, Cache, is_same_school_name, find_school_id_by_name, strictly,
}

-- A row with the school id that it is written with (`none` is `null`).
pub record PlacedRow : Type 0 where
  pub row : RosterRow
  pub schoolid : Option String

abbrev pub stored_name : Option SchoolRow → Option String
stored_name none = none
stored_name (some s) = some s.schoolname

abbrev pub is_given : Option String → Bool
is_given o = elim (given o) [ none ↦ false | some s ↦ true ]

module _ (js : Js) (db : SchoolDb) where
  -- The part of the loop that takes a stored name: the name sent with the id must agree.
  unfoldable pub keep_id :
      String → Option String → Option String → Result SchoolError (Option String)
  keep_id id none schoolname = ok none
  keep_id id (some stored) schoolname =
      if is_given schoolname && not (is_same_school_name js (some stored) schoolname)
      then err contradiction
      else ok (some id)

  -- A lookup through one of the two maps, with the map that it leaves.
  abbrev pub cached_name : Cache → String → Option String × Cache
  cached_name by_id id = elim (lookup id by_id) [
    | some stored ↦ (stored, by_id)
    | none ↦ (stored_name (db.by_id id), (id, stored_name (db.by_id id)) ∷ by_id)
  ]

  abbrev pub cached_id : Cache → String → Result SchoolError (Option String × Cache)
  cached_id by_name name = elim (lookup name by_name) [
    | some id ↦ ok (id, by_name)
    | none ↦
        find_school_id_by_name js db (some name) strictly >>= λ id. ok (id, (name, id) ∷ by_name)
  ]

  -- The id by the row's own id, and then by its name. `!schoolid` also holds of an empty id, but
  -- an id that is kept is not blank.
  abbrev pub place_by_id : Cache → RosterRow → Result SchoolError (Option String × Cache)
  place_by_id by_id row = elim (given row.schoolid) [
    | none ↦ ok (none, by_id)
    | some sent ↦
        let (stored, by_id') = cached_name by_id (trim sent) in
        keep_id (trim sent) stored row.schoolname >>= λ id. ok (id, by_id')
  ]

  abbrev pub place_by_name :
      Cache → RosterRow → Option String → Result SchoolError (Option String × Cache)
  place_by_name by_name row (some id) = ok (some id, by_name)
  place_by_name by_name row none = elim (given row.schoolname) [
    | none ↦ ok (none, by_name)
    | some name ↦ cached_id by_name name
  ]

  unfoldable pub import_loop : Cache → Cache → List RosterRow → Result SchoolError (List PlacedRow)
  unfolding keep_id lookup
  import_loop by_id by_name [] = ok []
  import_loop by_id by_name (row ∷ rows) = place_by_id by_id row >>= λ (kept, by_id').
      place_by_name by_name row kept >>= λ (id, by_name').
      import_loop by_id' by_name' rows >>= λ placed.
      ok (record { row = row; schoolid = id } ∷ placed)

  unfoldable pub with_import_school_ids : List RosterRow → Result SchoolError (List PlacedRow)
  unfolding import_loop
  with_import_school_ids rows = import_loop [] [] rows

  unfoldable pub with_required_school_ids : List RosterRow → Result SchoolError (List PlacedRow)
  unfolding with_import_school_ids
  with_required_school_ids rows = with_import_school_ids rows >>= λ placed.
      let without = length (filter (λ p. not (is_given p.schoolid)) placed) in
      if eqb without 0 then ok placed else err (no_school without)

  -- What one row of a roster declares itself to be: its id, or the id that its name has.
  abbrev pub declared_by : Cache → Option RosterRow → Result SchoolError (Option String × Cache)
  declared_by by_name none = ok (none, by_name)
  declared_by by_name (some row) = elim (given row.schoolid) [
    | some id ↦ ok (some (trim id), by_name)
    | none ↦ elim (given row.schoolname) [
      | none ↦ ok (none, by_name)
      | some name ↦ cached_id by_name name
    ]
  ]

  abbrev pub is_wanted : String → Option String → Bool
  is_wanted wanted none = false
  is_wanted wanted (some id) = js.to_lower id == wanted

  -- The inner loop, over the parts of an entry: whether one is elsewhere, which ends it.
  unfoldable pub entry_loop :
      String → Cache → List (Option RosterRow) → Result SchoolError (Bool × Cache)
  unfolding lookup
  entry_loop wanted by_name [] = ok (false, by_name)
  entry_loop wanted by_name (row ∷ rows) = declared_by by_name row >>= λ (declared, by_name').
      let rest = entry_loop wanted by_name' rows in
      if is_wanted wanted declared then rest else ok (true, by_name')

  unfoldable pub entries_loop :
      String → Cache → ℕ → List (List (Option RosterRow)) → Result SchoolError ℕ
  unfolding entry_loop
  entries_loop wanted by_name count [] = ok count
  entries_loop wanted by_name count (entry ∷ entries) =
      entry_loop wanted by_name entry >>= λ (out, by_name').
      entries_loop wanted by_name' (if out then count + 1 else count) entries

  -- An entry that is one row is a list of one.
  unfoldable pub assert_roster_belongs_to_school :
      List (List (Option RosterRow)) → Option String → Result SchoolError (Unit {0})
  unfolding entries_loop
  assert_roster_belongs_to_school entries schoolid = elim (given schoolid) [
    | none ↦ err roster_names_no_school
    | some id ↦ entries_loop (js.to_lower (trim id)) [] 0 entries >>= λ count.
        if eqb count 0 then ok tt else err (elsewhere count)
  ]
