-- ===== src/Access.antt =====
-- src/business/content-access.ts: the curricula of a piece of content, and who may see it. A value
-- that is absent or no text is `none`, and so are `null` and `undefined` results.
pub mod Visible
pub mod Levels
pub mod Scope
pub mod Lists
pub mod Requests
use edtech_lms_rpi_api.Prelude.{
  ℕ, ◌+◌, Bool, true, false, not, ◌&&◌, ◌||◌, Option, none, some, List, [], ◌∷◌, ◌++◌, map, String,
  ◌==◌, if◌then◌else◌, leb, eqb, any, filter, contains, set_of,
}
use edtech_lms_rpi_api.Prelude.Text.{trim, is_empty, utf16_length}
use edtech_lms_rpi_api.Js.{Value, undefined, null, bool, num, str, arr, obj, Js, items, as_string}
use edtech_lms_rpi_api.School.{given}

pub data ContentKind : Type 0 where
  curriculum : ContentKind
  grade : ContentKind
  level : ContentKind
  lesson : ContentKind
  lessonlearning : ContentKind
  lessonplan : ContentKind
  lessonpractice : ContentKind
  lessonquiz : ContentKind
  baseline : ContentKind
  lessonpracticequestion : ContentKind
  lessonquizquestion : ContentKind
  levelquizquestion : ContentKind
  baselinequestion : ContentKind
  document : ContentKind

pub data CallerKind : Type 0 where
  learner : CallerKind
  staff : CallerKind

-- What the modelled code reads of a token.
pub record Token : Type 0 where
  pub schooluserrole : Option ℕ
  pub schooluserid : Option String
  pub studentid : Option String
  pub organisationid : Option String
  pub schoolid : Option String

pub record Caller : Type 0 where
  pub organisationid : String
  pub schoolid : String

pub record LevelRow (N : Type 0) : Type 0 where
  pub gradeid : Option String
  pub levelstatus : Value N

pub record SchoolOwnership (N : Type 0) : Type 0 where
  pub organisationid : Option String
  pub curriculums : Value N

-- The queries of the module. One that is `… → Option String` finds the row of an id and gives the
-- column that the code reads of it: the curriculum of a grade, the lesson of a plan, and so on.
pub record ContentDb (N : Type 0) : Type 0 where
  pub curriculum_row : String → Option String
  pub grade_row : String → Option String
  pub level_row : String → Option (LevelRow N)
  pub lesson_row : String → Option String
  pub learning_row : String → Option String
  pub plan_row : String → Option String
  pub practice_row : String → Option String
  pub quiz_row : String → Option String
  pub baseline_row : String → Option String
  pub practice_question_row : String → Option String
  pub quiz_question_row : String → Option String
  pub level_question_row : String → Option String
  pub baseline_question_row : String → Option String
  -- the lessons of the learnings and of the plans of a document, its linked learnings, and theirs
  pub learnings_of_document : String → List (Option String)
  pub links_of_document : String → List (Option String)
  pub learnings_among : List String → List (Option String)
  pub plans_of_document : String → List (Option String)
  pub document_owner : String → Option String
  -- of these curricula, those of this organisation
  pub owned_curricula : List String → String → List (Option String)
  pub school_row : String → Option (SchoolOwnership N)
  pub student_curriculumids : String → Option (Value N)
  -- the grades of these curricula, and the levels of these grades that are switched on
  pub grades_of : List String → List (Option String)
  pub live_levels_of : List String → List (Option String)

-- `field`: an empty text is none.
abbrev pub column : Option String → Option String
column none = none
column (some s) = if is_empty s then none else some s

unfoldable pub usable : Option String → Option String
usable none = none
usable (some id) = if not (is_empty id) && leb (utf16_length id) 64 then some id else none

-- `.filter((x): x is string => x !== null)`
abbrev pub present : List (Option String) → List String
present [] = []
present (none ∷ xs) = present xs
present (some x ∷ xs) = x ∷ present xs

abbrev pub gather : (String → List String) → List String → List String
gather f [] = []
gather f (x ∷ xs) = f x ++ gather f xs

abbrev pub one_of : Option String → List String
one_of none = []
one_of (some id) = id ∷ []

abbrev pub is_nil : List String → Bool
is_nil [] = true
is_nil (x ∷ xs) = false

abbrev pub is_document : ContentKind → Bool
is_document document = true
is_document _ = false

unfoldable pub caller_kind_of : Option Token → CallerKind
caller_kind_of none = learner
caller_kind_of (some user) = elim user.schooluserrole [
  | none ↦ learner
  | some role ↦ if eqb role 1 || eqb role 2 || eqb role 3 then staff else learner
]

-- `claimsOf`, which `callerOf` calls.
unfoldable pub caller_of : Option Token → Option Caller
caller_of none = none
caller_of (some user) = elim (given user.organisationid) [
  | none ↦ none
  | some o ↦ elim (given user.schoolid) [
    | none ↦ none
    | some s ↦ some (record { organisationid = trim o; schoolid = trim s })
  ]
]

module _ (js : Js) where
  unfoldable pub is_on : Value js.Num → Bool
  is_on (bool b) = b
  is_on (num n) = js.num_eq n js.one
  is_on (str s) = s == "1"
  is_on _ = false

  -- `idList`
  abbrev pub id_list : Value js.Num → List String
  id_list (arr vs) = present (map (λ v. usable (as_string v)) (items vs))
  id_list _ = []

  abbrev pub lowered : List String → List String
  lowered ids = map (λ id. js.to_lower id) ids

  module _ (db : ContentDb js.Num) where
    abbrev pub status_of : String → Value js.Num
    status_of levelid = elim (db.level_row levelid) [
      | none ↦ undefined
      | some row ↦ row.levelstatus
    ]

    abbrev pub grade_of : String → Option String
    grade_of levelid = elim (db.level_row levelid) [ none ↦ none | some row ↦ column row.gradeid ]

    abbrev pub curriculum_of_grade : Option String → List String
    curriculum_of_grade none = []
    curriculum_of_grade (some gradeid) = one_of (column (db.grade_row gradeid))

    -- `live` is `liveLevelsOnly`. An id that is empty is none here, by `column` or `usable`.
    unfoldable pub curriculum_of_level : Bool → Option String → List String
    unfolding is_on
    curriculum_of_level live none = []
    curriculum_of_level live (some levelid) =
        if live && not (is_on (status_of levelid))
        then []
        else curriculum_of_grade (grade_of levelid)

    unfoldable pub curriculum_of_lesson : Bool → Option String → List String
    unfolding curriculum_of_level
    curriculum_of_lesson live none = []
    curriculum_of_lesson live (some lessonid) =
        curriculum_of_level live (column (db.lesson_row lessonid))

    abbrev pub curriculum_of_baseline : Option String → List String
    curriculum_of_baseline none = []
    curriculum_of_baseline (some id) = one_of (column (db.baseline_row id))

    -- The recursive calls of the two kinds of questions, with the test for a usable id.
    abbrev pub curriculum_of_practice : Bool → Option String → List String
    curriculum_of_practice live id = elim (usable id) [
      | none ↦ []
      | some i ↦ curriculum_of_lesson live (column (db.practice_row i))
    ]

    abbrev pub curriculum_of_quiz : Bool → Option String → List String
    curriculum_of_quiz live id = elim (usable id) [
      | none ↦ []
      | some i ↦ curriculum_of_lesson live (column (db.quiz_row i))
    ]

    abbrev pub linked_learnings : List String → List (Option String)
    linked_learnings [] = []
    linked_learnings (x ∷ xs) = db.learnings_among (x ∷ xs)

    -- The lessons that use a document.
    abbrev pub lessons_of_document : String → List String
    lessons_of_document id =
        let links = set_of (present (map column (db.links_of_document id))) in
        let learnings = db.learnings_of_document id ++ linked_learnings links in
        set_of (present (map column (learnings ++ db.plans_of_document id)))

    -- The cases of `curriculumIdsOf`, for a usable id.
    unfoldable pub curricula_of : Bool → ContentKind → String → List String
    unfolding curriculum_of_lesson usable
    curricula_of live curriculum id = one_of (column (db.curriculum_row id))
    curricula_of live grade id = curriculum_of_grade (some id)
    curricula_of live level id = curriculum_of_level live (some id)
    curricula_of live lesson id = curriculum_of_lesson live (some id)
    curricula_of live lessonlearning id = curriculum_of_lesson live (column (db.learning_row id))
    curricula_of live lessonplan id = curriculum_of_lesson live (column (db.plan_row id))
    curricula_of live lessonpractice id = curriculum_of_lesson live (column (db.practice_row id))
    curricula_of live lessonquiz id = curriculum_of_lesson live (column (db.quiz_row id))
    curricula_of live baseline id = curriculum_of_baseline (some id)
    curricula_of live lessonpracticequestion id =
        curriculum_of_practice live (column (db.practice_question_row id))
    curricula_of live lessonquizquestion id =
        curriculum_of_quiz live (column (db.quiz_question_row id))
    curricula_of live levelquizquestion id =
        curriculum_of_level live (column (db.level_question_row id))
    curricula_of live baselinequestion id =
        curriculum_of_baseline (column (db.baseline_question_row id))
    curricula_of live document id =
        set_of (gather (λ l. curriculum_of_lesson live (some l)) (lessons_of_document id))

    unfoldable pub curriculum_ids_of : Bool → ContentKind → Option String → List String
    unfolding curricula_of
    curriculum_ids_of live kind id = elim (usable id) [
      | none ↦ []
      | some i ↦ curricula_of live kind i
    ]
