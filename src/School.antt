-- ===== src/School.antt =====
-- src/business/school-identity.ts: which school a name or an id means. A value that is absent or
-- no text is `none`; `null` and `undefined` results are `Option`s.
pub mod Names
pub mod Import
use edtech_lms_rpi_api.Prelude.{
  ℕ, ◌+◌, Bool, true, false, not, ◌&&◌, ◌||◌, Option, none, some, List, [], ◌∷◌, map, String, ◌==◌,
  if◌then◌else◌, ltb, eqb, length, filter, Result, ok, err, ◌>>=◌,
}
use edtech_lms_rpi_api.Prelude.Text.{trim, is_blank, is_empty}
use edtech_lms_rpi_api.Js.{Js, lookup}

-- A row of `schools`.
pub record SchoolRow : Type 0 where
  pub schoolid : String
  pub schoolname : String
  pub isdeleted : Bool

-- The two queries on `schools`: the rows that `TRIM(schoolname) = ?` selects for a name, as the
-- column's collation compares, and the row of an id.
pub record SchoolDb : Type 0 where
  pub named : String → List SchoolRow
  pub by_id : String → Option SchoolRow

pub data SchoolError : Type 0 where
  ambiguous_name : SchoolError
  contradiction : SchoolError
  no_school : ℕ → SchoolError
  roster_names_no_school : SchoolError
  elsewhere : ℕ → SchoolError

pub record FindByNameOptions : Type 0 where
  pub live_only : Bool
  pub strict : Bool

abbrev pub lenient : FindByNameOptions
lenient = record { live_only = false; strict = false }

abbrev pub strictly : FindByNameOptions
strictly = record { live_only = false; strict = true }

-- `isGiven`: the text, if it is one and not blank.
abbrev pub given : Option String → Option String
given none = none
given (some s) = if is_blank s then none else some s

pub data SchoolScope : Type 0 where
  id_scope : String → SchoolScope
  name_scope : Option String → SchoolScope

-- The `where` that a scope makes: rows of an id, or rows with no id and a name.
pub data SchoolPredicate : Type 0 where
  with_id : String → SchoolPredicate
  with_name_only : Option String → SchoolPredicate

unfoldable pub school_predicate : SchoolScope → SchoolPredicate
school_predicate (id_scope schoolid) = with_id schoolid
school_predicate (name_scope schoolname) = with_name_only schoolname

abbrev pub is_live : SchoolRow → Bool
is_live s = not s.isdeleted

-- A row of a roster that is about to be written.
pub record RosterRow : Type 0 where
  pub schoolid : Option String
  pub schoolname : Option String

abbrev pub Cache : Type 0
Cache = List (String × Option String)

module _ (js : Js) where
  unfoldable pub normalise_school_name : String → String
  normalise_school_name name = js.to_lower (js.nfc (trim name))

  unfoldable pub is_same_school_name : Option String → Option String → Bool
  unfolding normalise_school_name
  is_same_school_name (some stored) (some name) =
      not (is_empty (normalise_school_name stored))
      && normalise_school_name stored == normalise_school_name name
  is_same_school_name _ _ = false

  -- The comparison that `schoolRefIsOwn` makes with the scope that is named.
  unfoldable pub is_own : Option SchoolScope → Option SchoolScope → Bool
  unfolding is_same_school_name
  is_own own none = true
  is_own none (some g) = false
  is_own (some (id_scope o)) (some (id_scope g)) = js.to_lower g == js.to_lower o
  is_own (some (name_scope o)) (some (name_scope g)) = is_same_school_name o g
  is_own (some o) (some g) = false

  module _ (db : SchoolDb) where
    unfoldable pub same_name_candidates : String → List SchoolRow
    unfolding is_same_school_name
    same_name_candidates schoolname =
        filter (λ s. is_same_school_name (some s.schoolname) (some schoolname))
          (db.named (js.nfc (trim schoolname)))

    -- `if (test) same = same.filter((s) => !s.isdeleted)`
    abbrev pub live_if : Bool → List SchoolRow → List SchoolRow
    live_if test same = if test then filter is_live same else same

    -- The last lines of `findSchoolIdByName`.
    abbrev pub the_one : List SchoolRow → Result SchoolError (Option String)
    the_one [] = ok none
    the_one (s ∷ []) = ok (some s.schoolid)
    the_one (s ∷ t ∷ rest) = err ambiguous_name

    unfoldable pub find_school_id_by_name :
        Option String → FindByNameOptions → Result SchoolError (Option String)
    unfolding same_name_candidates
    find_school_id_by_name name options = elim (given name) [
      | none ↦ ok none
      | some text ↦
          let same = live_if options.live_only (same_name_candidates text) in
          the_one (live_if (ltb 1 (length same) && not options.strict) same)
    ]

    -- The outer option is "no school filter"; the inner one is a name of no school.
    unfoldable pub resolve_school_ref :
        RosterRow → FindByNameOptions → Result SchoolError (Option (Option String))
    unfolding find_school_id_by_name
    resolve_school_ref ref options = elim (given ref.schoolid) [
      | some id ↦ ok (some (some (trim id)))
      | none ↦ elim (given ref.schoolname) [
        | none ↦ ok none
        | some name ↦ find_school_id_by_name (some name) options >>= λ id. ok (some id)
      ]
    ]

    abbrev pub scope_of_found : Option String → Option String → SchoolScope
    scope_of_found name none = name_scope name
    scope_of_found name (some id) = if is_empty id then name_scope name else id_scope id

    unfoldable pub resolve_school_scope :
        RosterRow → FindByNameOptions → Result SchoolError (Option SchoolScope)
    unfolding find_school_id_by_name
    resolve_school_scope ref options = elim (given ref.schoolid) [
      | some id ↦ ok (some (id_scope (trim id)))
      | none ↦ elim (given ref.schoolname) [
        | none ↦ ok none
        | some name ↦ find_school_id_by_name (some name) options >>= λ id.
            ok (some (scope_of_found (some name) id))
      ]
    ]

    unfoldable pub school_scope_from_token : RosterRow → Result SchoolError (Option SchoolScope)
    unfolding resolve_school_scope
    school_scope_from_token user = resolve_school_scope user lenient

    -- `login` and `learner` are the school ids stored on the two rows (`""` counts as none).
    abbrev pub filled : Option String → Option String
    filled none = none
    filled (some id) = if is_empty id then none else some id

    unfoldable pub school_scope_of_login :
        Option String → Option String → Option String → Result SchoolError SchoolScope
    unfolding find_school_id_by_name
    school_scope_of_login login learner schoolname = elim (filled login) [
      | some id ↦ ok (id_scope id)
      | none ↦ elim (filled learner) [
        | some id ↦ ok (id_scope id)
        | none ↦
            find_school_id_by_name schoolname lenient >>= λ id. ok (scope_of_found schoolname id)
      ]
    ]

    unfoldable pub school_ref_is_own : Option SchoolScope → RosterRow → Result SchoolError Bool
    unfolding resolve_school_scope is_own
    school_ref_is_own own ref = resolve_school_scope ref lenient >>= λ found. ok (is_own own found)
