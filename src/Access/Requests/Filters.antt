-- ===== src/Access/Requests/Filters.antt =====
-- src/business/report-scope.ts: the filters of a report that name content, classes and a learner.
use edtech_lms_rpi_api.Prelude.{
  Bool, true, false, not, ◌&&◌, ◌||◌, Option, none, some, List, [], ◌∷◌, String, ◌==◌,
  if◌then◌else◌, every, filter, contains,
}
use edtech_lms_rpi_api.Prelude.Text.{is_empty}
use edtech_lms_rpi_api.Js.{Value, undefined, null, bool, num, str, arr, Js, items}
use edtech_lms_rpi_api.Access.{
  ContentKind, curriculum, grade, level, lesson, ContentDb, column, is_nil, lowered,
  curriculum_ids_of,
}
use edtech_lms_rpi_api.Access.Visible.{curricula_in_scope}
use edtech_lms_rpi_api.Access.Requests.{ReportScope}

-- A filter of a report's body; a key that is no text is `none`.
pub record MultiFilter (N : Type 0) : Type 0 where
  pub key : Option String
  pub value : Value N

pub record LearnerRow : Type 0 where
  pub schoolid : Option String
  pub schooluserid : String

-- The two further queries: the schools of the classes that are stored, and a learner's row.
pub record FilterDb : Type 0 where
  pub schools_of_classes : List String → List String
  pub learner_row : String → Option LearnerRow

-- `FILTER_KINDS`
unfoldable pub filter_kinds : String → Option ContentKind
filter_kinds key =
    if key == "curriculumid"
    then some curriculum
    else if key == "gradeid"
    then some grade
    else if key == "levelid"
    then some level
    else if key == "lessonid"
    then some lesson
    else none

abbrev pub kind_of_key : Option String → Option ContentKind
kind_of_key none = none
kind_of_key (some key) = filter_kinds key

abbrev pub has_key : String → Option String → Bool
has_key name none = false
has_key name (some key) = key == name

module _ {N : Type 0} where
  -- `Array.isArray(value) ? value : [value]`
  abbrev pub listed : Value N → List (Value N)
  listed (arr vs) = items vs
  listed v = v ∷ []

  -- `c !== "" && c !== null && c !== undefined`
  abbrev pub is_filled : Value N → Bool
  is_filled undefined = false
  is_filled null = false
  is_filled (str s) = not (is_empty s)
  is_filled _ = true

  -- The texts of a list of values, if all of them are texts.
  abbrev pub all_texts : List (Value N) → Option (List String)
  all_texts [] = some []
  all_texts (str s ∷ vs) = elim (all_texts vs) [ none ↦ none | some ts ↦ some (s ∷ ts) ]
  all_texts (v ∷ vs) = none

module _ (js : Js) (db : ContentDb js.Num) (rows : FilterDb) where
  -- Whether a value is taken by an `if`; `NaN` is not equal to itself.
  abbrev pub is_truthy : Value js.Num → Bool
  is_truthy undefined = false
  is_truthy null = false
  is_truthy (bool b) = b
  is_truthy (num n) = not (js.num_eq n js.zero) && js.num_eq n n
  is_truthy (str s) = not (is_empty s)
  is_truthy _ = true

  abbrev pub is_mine : ReportScope → String → Bool
  is_mine scope schoolid = contains (lowered js scope.schoolids) (js.to_lower schoolid)

  abbrev pub classes_in_scope : ReportScope → Option (List String) → Bool
  classes_in_scope scope none = false
  classes_in_scope scope (some named) =
      is_nil named || every (is_mine scope) (rows.schools_of_classes named)

  abbrev pub is_own_login : Option String → String → Bool
  is_own_login none login = true
  is_own_login (some own) login = js.to_lower login == js.to_lower own

  abbrev pub is_learner_in_scope : ReportScope → Option LearnerRow → Bool
  is_learner_in_scope scope none = true
  is_learner_in_scope scope (some row) = elim (column row.schoolid) [
    | none ↦ false
    | some schoolid ↦ is_mine scope schoolid && is_own_login scope.schooluserid row.schooluserid
  ]

  abbrev pub learner_in_scope : ReportScope → Value js.Num → Bool
  learner_in_scope scope (str id) = is_learner_in_scope scope (rows.learner_row id)
  learner_in_scope scope v = false

  unfoldable pub content_in_scope : ReportScope → ContentKind → String → Bool
  content_in_scope scope kind id =
      let own = curriculum_ids_of js db false kind (some id) in
      let inside =
        lowered js (curricula_in_scope js db scope.organisationid scope.curriculumids own) in
      every (λ c. contains inside (js.to_lower c)) own

  abbrev pub ids_in_scope : ReportScope → ContentKind → List (Value js.Num) → Bool
  ids_in_scope scope kind [] = true
  ids_in_scope scope kind (str s ∷ vs) =
      (is_empty s || content_in_scope scope kind s) && ids_in_scope scope kind vs
  ids_in_scope scope kind (undefined ∷ vs) = ids_in_scope scope kind vs
  ids_in_scope scope kind (null ∷ vs) = ids_in_scope scope kind vs
  ids_in_scope scope kind (v ∷ vs) = false

  -- One round of the loop: whether it goes on.
  unfoldable pub filter_in_scope : ReportScope → MultiFilter js.Num → Bool
  unfolding content_in_scope filter_kinds
  filter_in_scope scope f =
      if has_key "standard" f.key && is_truthy f.value
      then classes_in_scope scope (all_texts (filter is_filled (listed f.value)))
      else if has_key "studentid" f.key && is_truthy f.value
      then learner_in_scope scope f.value
      else elim (kind_of_key f.key) [
        | none ↦ true
        | some kind ↦ if is_truthy f.value then ids_in_scope scope kind (listed f.value) else true
      ]

  abbrev pub filters_in_scope : ReportScope → List (MultiFilter js.Num) → Bool
  filters_in_scope scope [] = true
  filters_in_scope scope (f ∷ fs) =
      if filter_in_scope scope f then filters_in_scope scope fs else false

  unfoldable pub content_filters_in_scope : Option ReportScope → List (MultiFilter js.Num) → Bool
  unfolding filter_in_scope
  content_filters_in_scope none filters = true
  content_filters_in_scope (some scope) filters = filters_in_scope scope filters
