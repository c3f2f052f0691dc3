-- ===== src/Tests/Access.antt =====
-- Runs of the content guard and of the request checks, and their theorems at concrete inputs.
use mathlib.Core.Path.{subst}
use edtech_lms_rpi_api.Prelude.{
  ◌≡◌, refl, ◌∙◌, sym, map, inl, inr, Bool, true, false, Option, none, some, List, [], ◌∷◌, String,
  ◌==◌, eq_iff, arith, if◌then◌else◌, contains, set_of, ok, err, Bool-cases,
}
use edtech_lms_rpi_api.Prelude.Text.{trim, utf16_length}
use edtech_lms_rpi_api.Js.{bool, str, arr, nil, cons}
use edtech_lms_rpi_api.Access.{
  level, lesson, document, Token, Caller, LevelRow, ContentDb, column, usable, present, caller_of,
  caller_kind_of, is_on, status_of, curricula_of, curriculum_ids_of,
}
use edtech_lms_rpi_api.Access.Visible.{
  curricula_in_scope, school_curriculum_list, candidates_of, studentid_of, curriculum_ids_in_scope,
  can_access_content, level_ids_in_scope,
}
use edtech_lms_rpi_api.Access.Levels.{
  level_off, by_lesson, as_learning, as_link, as_plan, by_document, IsUsedIn, IsSwitchedOff,
  can_access_content-off,
}
use edtech_lms_rpi_api.Access.Scope.{IsOwnedQuery, IsVisible, can_access_content-IsVisible}
use edtech_lms_rpi_api.Access.Lists.{IsListQuery, can_access_content-listed}
use edtech_lms_rpi_api.Access.Requests.{
  ClaimsDb, unauthorized, check_token_claims, resolve_report_scope, ReportScope,
}
use edtech_lms_rpi_api.Access.Requests.Claims.{IsProved, check_token_claims-IsProved}
use edtech_lms_rpi_api.Access.Requests.Reports.{IsAllowed, resolve_report_scope-IsAllowed}
use edtech_lms_rpi_api.Tests.Data.{runtime}

abbrev only : String → String → String → Option String
only key value id = if id == key then some value else none

abbrev level_of : Bool → LevelRow runtime.Num
level_of b = record { gradeid = some "g1"; levelstatus = bool b }

-- A curriculum of organisation "o1" with a level that is on and one that is off, and a school.
abbrev pub content : ContentDb runtime.Num
content = record {
  curriculum_row = only "c1" "c1";
  grade_row = only "g1" "c1";
  level_row = λ id.
      if id == "on"
      then some (level_of true)
      else if id == "off"
      then some (level_of false)
      else none;
  lesson_row = λ id. if id == "x1" then some "on" else if id == "x0" then some "off" else none;
  learning_row = λ id. none;
  plan_row = λ id. none;
  practice_row = λ id. none;
  quiz_row = only "z0" "x0";
  baseline_row = λ id. none;
  practice_question_row = λ id. none;
  quiz_question_row = λ id. none;
  level_question_row = λ id. none;
  baseline_question_row = λ id. none;
  learnings_of_document = λ id. if id == "d0" then some "x0" ∷ [] else [];
  links_of_document = λ id. [];
  learnings_among = λ ids. [];
  plans_of_document = λ id. [];
  document_owner = λ id. none;
  owned_curricula =
      λ ids o. if o == "o1" then if contains ids "c1" then some "c1" ∷ [] else [] else [];
  school_row = λ id.
      if id == "s1"
      then some (record { organisationid = some "o1"; curriculums = arr (cons (str "c1") nil) })
      else none;
  student_curriculumids = λ id. if id == "st" then some (arr (cons (str "c1") nil)) else none;
  grades_of = λ ids. if contains ids "c1" then some "g1" ∷ [] else [];
  live_levels_of = λ ids. if contains ids "g1" then some "on" ∷ [] else [];
}

abbrev teacher : Token
teacher = record {
  schooluserrole = some 3;
  schooluserid = some "u1";
  studentid = none;
  organisationid = some "o1";
  schoolid = some "s1";
}

abbrev teacher_caller : Caller
teacher_caller = record { organisationid = "o1"; schoolid = "s1" }

access_runs :
    (can_access_content runtime content (some teacher) lesson (some "x1") ≡ true)
    × (can_access_content runtime content (some teacher) lesson (some "x0") ≡ false)
    × (can_access_content runtime content none lesson (some "x1") ≡ false)
    × (can_access_content runtime content (some teacher) document (some "d1") ≡ false)
unfolding can_access_content curriculum_ids_of curriculum_ids_in_scope caller_of caller_kind_of
    usable is_on set_of contains trim utf16_length school_curriculum_list curricula_in_scope
    curricula_of
access_runs = (refl, refl, refl, refl)

switched_off : is_on runtime (status_of runtime content "off") ≡ false
unfolding is_on
switched_off = refl

lesson_off : IsSwitchedOff runtime content lesson "x0"
lesson_off = by_lesson "x0" "off" refl (level_off "off" switched_off)

-- The document "d0" is used by one lesson, of the level that is off.
used_in_x0 : (j : String) → IsUsedIn runtime content "d0" j → IsSwitchedOff runtime content lesson j
unfolding contains set_of
used_in_x0 j (as_learning h) = elim (Bool-cases ("x0" == j)) [
  | inl e ↦ subst (λ i. IsSwitchedOff runtime content lesson i) ((eq_iff "x0" j).0 e) lesson_off
  | inr e ↦ absurd (ground (arith, h, e))
]
used_in_x0 j (as_link h) = absurd (ground (arith, h))
used_in_x0 j (as_plan h) = absurd (ground (arith, h))

can_access_content-off_example :
    can_access_content runtime content (some teacher) document (some "d0") ≡ false
can_access_content-off_example =
    can_access_content-off runtime content (some teacher) document "d0"
      (by_document "d0" used_in_x0)

abbrev IsOwnedBy : String → String → Type 0
IsOwnedBy o c = (o ≡ "o1") × (c ≡ "c1")

owned_rows :
    (wanted : List String) (o id : String)
    → contains (present (map column (content.owned_curricula wanted o))) id ≡ true
    → (o ≡ "o1") × (contains wanted "c1" ≡ true) × (id ≡ "c1")
unfolding contains
owned_rows wanted o id h = elim (Bool-cases (o == "o1")) [
  | inl mine ↦ elim (Bool-cases (contains wanted "c1")) [
    | inl asked ↦ (
      (eq_iff o "o1").0 mine,
      asked,
      sym ((eq_iff "c1" id).0 (ground (arith, rw asked at (rw mine at h)))),
    )
    | inr other ↦ absurd (ground (arith, rw other at (rw mine at h)))
  ]
  | inr other ↦ absurd (ground (arith, rw other at h))
]

owned_query : IsOwnedQuery runtime content IsOwnedBy
owned_query = record {
  rows_are_owned =
      λ wanted o id h. let (mine, asked, same) = owned_rows wanted o id h in (mine, same);
  rows_are_wanted = λ wanted o id h.
      let (mine, asked, same) = owned_rows wanted o id h in ("c1", asked, sym same);
}

allowed : can_access_content runtime content (some teacher) lesson (some "x1") ≡ true
unfolding can_access_content curriculum_ids_of curriculum_ids_in_scope caller_of caller_kind_of
    usable is_on set_of contains trim utf16_length school_curriculum_list curricula_in_scope
    curricula_of
allowed = refl

can_access_content-IsVisible_example :
    (caller : Caller) × (caller_of (some teacher) ≡ some caller)
    × ((c : String) × (contains (curriculum_ids_of runtime content true lesson (some "x1")) c
          ≡ true)
        × IsVisible runtime content IsOwnedBy caller.organisationid
            (candidates_of runtime content
              (some teacher)
              caller
              (studentid_of runtime content (some teacher)))
            c)
can_access_content-IsVisible_example =
    can_access_content-IsVisible runtime content IsOwnedBy owned_query (some teacher) lesson
      (some "x1") allowed

listed_c1 : contains (school_curriculum_list runtime content "o1" "s1") "c1" ≡ true
unfolding school_curriculum_list contains usable utf16_length
listed_c1 = refl

live_rows :
    (ids : List String) (l : String)
    → contains (present (map column (content.live_levels_of ids))) l ≡ true
    → (contains ids "g1" ≡ true) × (l ≡ "on")
unfolding contains
live_rows ids l h = elim (Bool-cases (contains ids "g1")) [
  | inl asked ↦ (asked, sym ((eq_iff "on" l).0 (ground (arith, rw asked at h))))
  | inr other ↦ absurd (ground (arith, rw other at h))
]

grade_rows :
    (ids : List String) (g : String)
    → contains (present (map column (content.grades_of ids))) g ≡ true
    → (contains ids "c1" ≡ true) × (g ≡ "g1")
unfolding contains
grade_rows ids g h = elim (Bool-cases (contains ids "c1")) [
  | inl asked ↦ (asked, sym ((eq_iff "g1" g).0 (ground (arith, rw asked at h))))
  | inr other ↦ absurd (ground (arith, rw other at h))
]

list_query : IsListQuery runtime content
unfolding usable utf16_length is_on
list_query = record {
  levels_are_live = λ ids l h. let (asked, same) = live_rows ids l h in rw same (refl, refl);
  levels_are_of =
      λ ids l h. let (asked, same) = live_rows ids l h in rw same ("g1", refl, ("g1", asked, refl));
  grades_are_of = λ ids g g' h alike.
      let (asked, same) = grade_rows ids g' h in
      let again : g ≡ "g1" = sym alike ∙ same in rw again ("c1", refl, ("c1", asked, refl));
}

listed_on : contains (level_ids_in_scope runtime content (some teacher)) "on" ≡ true
unfolding level_ids_in_scope curriculum_ids_in_scope caller_of caller_kind_of usable set_of contains
    trim utf16_length school_curriculum_list curricula_in_scope
listed_on = refl

can_access_content-listed_example :
    can_access_content runtime content (some teacher) level (some "on") ≡ true
can_access_content-listed_example =
    can_access_content-listed runtime content list_query (some teacher) "on" listed_on

-- The organisation is in use, and the school is its own.
abbrev claims : ClaimsDb
claims = record {
  organisation_row = λ id.
      if id == "o1" then some (record { organisationstatus = true; isdeleted = false }) else none;
  owned_school_row = λ id.
      if id == "s1" then some (record { organisationid = some "o1"; isdeleted = false }) else none;
  schools_of = λ id. if id == "o1" then "s1" ∷ "s2" ∷ [] else [];
}

claims_runs :
    (check_token_claims runtime claims (some "s1") none ≡ err unauthorized)
    × (check_token_claims runtime claims (some "s2") (some "o1") ≡ err unauthorized)
unfolding check_token_claims trim
claims_runs = (refl, refl)

claims_pass : check_token_claims runtime claims teacher.schoolid teacher.organisationid ≡ ok tt
unfolding check_token_claims trim
claims_pass = refl

check_token_claims-IsProved_example :
    (c : Caller) × (caller_of (some teacher) ≡ some c) × IsProved runtime claims c
check_token_claims-IsProved_example = check_token_claims-IsProved runtime claims teacher claims_pass

abbrev server : Token
server = record {
  schooluserrole = none;
  schooluserid = some "server";
  studentid = none;
  organisationid = none;
  schoolid = none;
}

abbrev any_id : String → Bool
any_id s = true

abbrev organisation_scope : ReportScope
organisation_scope = record {
  organisationid = "o1";
  schoolids = "s1" ∷ "s2" ∷ [];
  curriculumids = none;
  schooluserid = none;
}

server_scope :
    resolve_report_scope runtime claims content any_id (some " o1") (some server)
    ≡ ok (some organisation_scope)
unfolding resolve_report_scope trim
server_scope = refl

resolve_report_scope-IsAllowed_example :
    IsAllowed runtime claims content any_id (some " o1") server (some organisation_scope)
resolve_report_scope-IsAllowed_example =
    resolve_report_scope-IsAllowed runtime claims content any_id (some " o1") server
      (some organisation_scope) server_scope
