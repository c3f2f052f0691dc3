-- ===== src/Tests/Roster.antt =====
-- A run of the lists of curricula of a roster, and its theorem at a concrete input.
use edtech_lms_rpi_api.Prelude.{ℕ, ◌≡◌, refl, List, [], ◌∷◌, length, All, ok, err}
use edtech_lms_rpi_api.Prelude.Text.{trim, utf16_length}
use edtech_lms_rpi_api.Js.{Value, null, str, arr, obj, nil, cons, end, field, property}
use edtech_lms_rpi_api.Roster.{
  usable_list_id, outcome, filled_row, lists_loop, with_curriculum_lists,
}
use edtech_lms_rpi_api.Roster.Usable.{IsListed, with_curriculum_lists-IsListed}

abbrev learner : Value ℕ → Value ℕ → Value ℕ
learner id list =
    obj (field "student" (obj (field "curriculumid" id (field "curriculumids" list end))) end)

abbrev given_one : Value ℕ
given_one = learner null (arr (cons (str "c1") nil))

-- The second learner has no list, and gets the one curriculum that it names.
abbrev roster : List (Value ℕ)
roster = given_one ∷ learner (str "c2") null ∷ []

abbrev written : List (Value ℕ)
written = given_one ∷ learner (str "c2") (arr (cons (str "c2") nil)) ∷ []

roster_runs : with_curriculum_lists roster ≡ ok (written, 1)
unfolding with_curriculum_lists lists_loop outcome filled_row usable_list_id property utf16_length
    trim
roster_runs = refl

-- The second row names no curriculum.
roster_refused :
    with_curriculum_lists (given_one ∷ learner (str "  ") null ∷ [])
    ≡ err (record { shown = 2 ∷ []; more = 0 })
unfolding with_curriculum_lists lists_loop outcome filled_row usable_list_id property utf16_length
    trim
roster_refused = refl

with_curriculum_lists-IsListed_example :
    (length written ≡ length roster)
    × All IsListed written
    × (with_curriculum_lists written ≡ ok (written, 0))
unfolding property utf16_length
with_curriculum_lists-IsListed_example =
    with_curriculum_lists-IsListed roster written 1 refl roster_runs
