-- ===== src/Tests/School.antt =====
-- Runs of the school lookup and of a roster import, and their theorems at concrete inputs.
use edtech_lms_rpi_api.Prelude.{
  ◌≡◌, refl, Bool, true, false, Option, none, some, List, [], ◌∷◌, String, ◌==◌, if◌then◌else◌, All,
  ok, err,
}
use edtech_lms_rpi_api.Prelude.Text.{trim}
use edtech_lms_rpi_api.Js.{lookup}
use edtech_lms_rpi_api.School.{
  SchoolRow, SchoolDb, ambiguous_name, no_school, contradiction, elsewhere, given, RosterRow,
  is_same_school_name, same_name_candidates, find_school_id_by_name, lenient, strictly,
}
use edtech_lms_rpi_api.School.Names.{IsOnlyLive, find_school_id_by_name_sound}
use edtech_lms_rpi_api.School.Import.{
  PlacedRow, with_import_school_ids, with_required_school_ids, keep_id,
  assert_roster_belongs_to_school,
}
use edtech_lms_rpi_api.School.Import.Uncached.{
  place_rows, IsPlaced, with_import_school_ids-eq, with_required_school_ids-IsPlaced,
}
use edtech_lms_rpi_api.Tests.Data.{runtime}

abbrev school : String → String → Bool → SchoolRow
school id name gone = record { schoolid = id; schoolname = name; isdeleted = gone }

-- "East" is a school and a deleted one; "West" is two schools; "s1" is East.
abbrev schools : SchoolDb
schools = record {
  named = λ name.
      if name == "East"
      then school "s1" "East" false ∷ school "s0" "East" true ∷ []
      else if name == "West"
      then school "s2" "West" false ∷ school "s3" "West" false ∷ []
      else if name == "North"
      then school "s4" "North" false ∷ []
      else [];
  by_id = λ id. if id == "s1" then some (school "s1" "East" false) else none;
}

abbrev roster_row : Option String → Option String → RosterRow
roster_row id name = record { schoolid = id; schoolname = name }

abbrev roster : List RosterRow
roster = roster_row (some " s1 ") (some "East") ∷ roster_row none (some "North") ∷ []

found_runs :
    (find_school_id_by_name runtime schools (some "East") lenient ≡ ok (some "s1"))
    × (find_school_id_by_name runtime schools (some "East") strictly ≡ err ambiguous_name)
    × (find_school_id_by_name runtime schools (some "West") lenient ≡ err ambiguous_name)
    × (find_school_id_by_name runtime schools (some "South") lenient ≡ ok none)
unfolding find_school_id_by_name same_name_candidates is_same_school_name trim
found_runs = (refl, refl, refl, refl)

import_runs :
    (with_import_school_ids runtime schools (roster_row (some "s1") (some "North") ∷ [])
      ≡ err contradiction)
    × (with_required_school_ids runtime schools (roster_row none (some "South") ∷ [])
        ≡ err (no_school 1))
    × (assert_roster_belongs_to_school runtime schools
          ((some (roster_row none (some "North")) ∷ []) ∷ [])
          (some "s1")
        ≡ err (elsewhere 1))
unfolding with_import_school_ids with_required_school_ids assert_roster_belongs_to_school
    find_school_id_by_name keep_id lookup is_same_school_name trim
import_runs = (refl, refl, refl)

IsEast : SchoolRow → Type 0
IsEast s = s.schoolname ≡ "East"

east : given (some "East") ≡ some "East"
unfolding trim
east = refl

IsEast-All : All IsEast (schools.named (runtime.nfc (trim "East")))
unfolding trim IsEast
IsEast-All = (refl, (refl, tt))

east_found : find_school_id_by_name runtime schools (some "East") lenient ≡ ok (some "s1")
unfolding find_school_id_by_name same_name_candidates is_same_school_name trim
east_found = refl

find_school_id_by_name_sound_example :
    ((s : SchoolRow) × (s.schoolid ≡ "s1")
      × IsEast s
      × (is_same_school_name runtime (some s.schoolname) (some "East") ≡ true))
    × All (IsOnlyLive "s1") (same_name_candidates runtime schools "East")
find_school_id_by_name_sound_example =
    find_school_id_by_name_sound runtime schools IsEast (some "East") "East" lenient "s1" east
      IsEast-All east_found

with_import_school_ids-eq_example :
    with_import_school_ids runtime schools roster ≡ place_rows runtime schools roster
with_import_school_ids-eq_example = with_import_school_ids-eq runtime schools roster

abbrev placed : List PlacedRow
placed =
    record { row = roster_row (some " s1 ") (some "East"); schoolid = some "s1" }
    ∷ record { row = roster_row none (some "North"); schoolid = some "s4" }
    ∷ []

roster-placed : with_required_school_ids runtime schools roster ≡ ok placed
unfolding with_required_school_ids find_school_id_by_name keep_id lookup is_same_school_name trim
roster-placed = refl

with_required_school_ids-IsPlaced_example :
    (place_rows runtime schools roster ≡ ok placed) × All (IsPlaced runtime schools) placed
with_required_school_ids-IsPlaced_example =
    with_required_school_ids-IsPlaced runtime schools roster placed roster-placed
