-- ===== src/Tests/Reports.antt =====
-- Runs of the filters of a report, and their theorem at a concrete input.
use edtech_lms_rpi_api.Prelude.{
  ◌≡◌, refl, true, false, none, some, [], ◌∷◌, String, ◌==◌, if◌then◌else◌, contains, set_of,
}
use edtech_lms_rpi_api.Prelude.Text.{utf16_length}
use edtech_lms_rpi_api.Js.{str, arr, nil, cons}
use edtech_lms_rpi_api.Access.{column, lesson, usable, lowered, curricula_of, curriculum_ids_of}
use edtech_lms_rpi_api.Access.Visible.{curricula_in_scope}
use edtech_lms_rpi_api.Access.Requests.{ReportScope}
use edtech_lms_rpi_api.Access.Requests.Filters.{
  MultiFilter, FilterDb, LearnerRow, is_mine, is_own_login, filter_kinds, content_filters_in_scope,
}
use edtech_lms_rpi_api.Access.Requests.Named.{
  content_filters_in_scope_sound, content_filters_in_scope_learner,
}
use edtech_lms_rpi_api.Tests.Data.{runtime}
use edtech_lms_rpi_api.Tests.Access.{content}

-- Class "k1" is of school "s1", "k2" of another; learner "t1" is of school "s1".
abbrev rows : FilterDb
rows = record {
  schools_of_classes = λ ids. if contains ids "k2" then "s9" ∷ [] else "s1" ∷ [];
  learner_row = λ id.
      if id == "t1" then some (record { schoolid = some "s1"; schooluserid = "u1" }) else none;
}

abbrev scope_of : String → ReportScope
scope_of organisationid = record {
  organisationid = organisationid;
  schoolids = "s1" ∷ [];
  curriculumids = none;
  schooluserid = none;
}

abbrev lesson_filter : MultiFilter runtime.Num
lesson_filter = record { key = some "lessonid"; value = arr (cons (str "") (cons (str "x0") nil)) }

abbrev class_filter : String → MultiFilter runtime.Num
class_filter id = record { key = some "standard"; value = str id }

abbrev learner_filter : MultiFilter runtime.Num
learner_filter = record { key = some "studentid"; value = str "t1" }

accepted :
    content_filters_in_scope runtime content rows
      (some (scope_of "o1"))
      (class_filter "k1" ∷ learner_filter ∷ lesson_filter ∷ [])
    ≡ true
unfolding content_filters_in_scope curriculum_ids_of curricula_of curricula_in_scope filter_kinds
    usable utf16_length set_of contains
accepted = refl

refused_runs :
    (content_filters_in_scope runtime content rows (some (scope_of "o2")) (lesson_filter ∷ [])
      ≡ false)
    × (content_filters_in_scope runtime content rows (some (scope_of "o1")) (class_filter "k2" ∷ [])
        ≡ false)
    × (content_filters_in_scope runtime content rows none (lesson_filter ∷ []) ≡ true)
unfolding content_filters_in_scope curriculum_ids_of curricula_of curricula_in_scope filter_kinds
    usable utf16_length set_of contains
refused_runs = (refl, refl, refl)

of_lesson : contains (curriculum_ids_of runtime content false lesson (some "x0")) "c1" ≡ true
unfolding curriculum_ids_of curricula_of usable utf16_length contains
of_lesson = refl

lesson_key : filter_kinds "lessonid" ≡ some lesson
unfolding filter_kinds
lesson_key = refl

content_filters_in_scope_sound_example :
    contains
      (lowered runtime (
        curricula_in_scope runtime content "o1" none
          (curriculum_ids_of runtime content false lesson (some "x0"))))
      (runtime.to_lower "c1")
    ≡ true
content_filters_in_scope_sound_example =
    content_filters_in_scope_sound runtime content rows (scope_of "o1")
      (class_filter "k1" ∷ learner_filter ∷ lesson_filter ∷ []) 2 1 lesson_filter lesson "x0" "c1"
      accepted refl lesson_key refl refl refl of_lesson

abbrev learner_row : LearnerRow
learner_row = record { schoolid = some "s1"; schooluserid = "u1" }

content_filters_in_scope_learner_example :
    (schoolid : String) × (column learner_row.schoolid ≡ some schoolid)
    × (is_mine runtime content rows (scope_of "o1") schoolid ≡ true)
    × (is_own_login runtime content rows none "u1" ≡ true)
content_filters_in_scope_learner_example =
    content_filters_in_scope_learner runtime content rows (scope_of "o1")
      (class_filter "k1" ∷ learner_filter ∷ lesson_filter ∷ []) 1 learner_filter "t1" learner_row
      accepted refl refl refl refl refl
