-- ===== src/ContentImport.antt =====
-- src/modules/import/organisation-content.validator.ts: the tables of a content payload, and what the
-- checks use of the runtime.
pub mod Rows
pub mod Media
pub mod Translations
pub mod Validate
pub mod Sound
pub mod Closed
use edtech_lms_rpi_api.Prelude.{
  ℕ, zero, suc, Bool, true, false, not, ◌&&◌, ◌||◌, Option, none, some, List, [], ◌∷◌, map, String,
  ◌==◌, if◌then◌else◌, leb, ltb, length, filter,
}
use edtech_lms_rpi_api.Prelude.Text.{utf16_length}
use edtech_lms_rpi_api.Js.{Value, arr, obj, str, num, undefined, null, Js, items, get}

pub data TableKey : Type 0 where
  countries schools standards subjects curriculums questions documents curriculumbaselines
        baselinequestion grades levels lessons lessonlearnings lessonlearningdocuments lessonplans
        lessonpractices lessonquizzes lessonpracticequestions lessonquizquestions levelquizquestions
        contenttranslations :
      TableKey

pub data TableKind : Type 0 where
  owned inherited global : TableKind

pub record Reference : Type 0 where
  pub fk : String
  pub to : TableKey
  pub is_optional : Bool

pub record TableSpec : Type 0 where
  pub pk : String
  pub kind : TableKind
  -- the columns that name a row by its table and its id, over an allow-list of tables
  pub polymorphic : Option (String × String)
  pub parent : Option Reference
  pub refs : List Reference
  pub lists : List (String × TableKey)

abbrev needs : String → TableKey → Reference
needs fk to = record { fk = fk; to = to; is_optional = false }

abbrev may_name : String → TableKey → Reference
may_name fk to = record { fk = fk; to = to; is_optional = true }

abbrev table :
    String → TableKind → Option Reference → List Reference → List (String × TableKey) → TableSpec
table pk kind parent refs lists = record {
  pk = pk;
  kind = kind;
  polymorphic = none;
  parent = parent;
  refs = refs;
  lists = lists;
}

abbrev child : String → Reference → List Reference → TableSpec
child pk parent refs = table pk inherited (some parent) refs []

-- CONTENT_TABLES
abbrev pub spec_of : TableKey → TableSpec
spec_of countries = table "countryid" global none [] []
spec_of schools =
    table "schoolid" owned none (may_name "countryid" countries ∷ [])
      (("curriculums", curriculums) ∷ [])
spec_of standards = child "standardid" (needs "schoolid" schools) []
spec_of subjects = table "subjectid" owned none [] []
spec_of curriculums = table "curriculumid" owned none (may_name "subjectid" subjects ∷ []) []
spec_of questions = table "questionid" owned none [] []
spec_of documents = table "documentid" owned none [] []
spec_of curriculumbaselines =
    table "curriculumbaselineid" inherited (some (needs "curriculumid" curriculums)) []
      (("schoolid", schools) ∷ [])
spec_of baselinequestion =
    child "baselinequestionid" (needs "curriculumbaselineid" curriculumbaselines)
      (needs "questionid" questions ∷ [])
spec_of grades = child "gradeid" (needs "curriculumid" curriculums) []
spec_of levels = child "levelid" (needs "gradeid" grades) []
spec_of lessons = child "lessonid" (needs "levelid" levels) []
spec_of lessonlearnings =
    child "lessonlearningid" (needs "lessonid" lessons) (may_name "documentid" documents ∷ [])
spec_of lessonlearningdocuments =
    child "lessonlearningdocumentid" (needs "lessonlearningid" lessonlearnings)
      (needs "documentid" documents ∷ [])
spec_of lessonplans =
    child "lessonplanid" (needs "lessonid" lessons) (may_name "documentid" documents ∷ [])
spec_of lessonpractices = child "lessonpracticeid" (needs "lessonid" lessons) []
spec_of lessonquizzes = child "lessonquizid" (needs "lessonid" lessons) []
spec_of lessonpracticequestions =
    child "lessonpracticequestionid" (needs "lessonpracticeid" lessonpractices)
      (needs "questionid" questions ∷ [])
spec_of lessonquizquestions =
    child "lessonquizquestionid" (needs "lessonquizid" lessonquizzes)
      (needs "questionid" questions ∷ [])
spec_of levelquizquestions =
    child "levelquizquestionid" (needs "levelid" levels)
      (needs "questionid" questions ∷ may_name "lessonid" lessons ∷ [])
spec_of contenttranslations = record (table "translationid" owned none [] []) {
  polymorphic = some ("tablename", "rowid");
}

abbrev pub name_of : TableKey → String
name_of countries = "countries"
name_of schools = "schools"
name_of standards = "standards"
name_of subjects = "subjects"
name_of curriculums = "curriculums"
name_of questions = "questions"
name_of documents = "documents"
name_of curriculumbaselines = "curriculumbaselines"
name_of baselinequestion = "baselinequestion"
name_of grades = "grades"
name_of levels = "levels"
name_of lessons = "lessons"
name_of lessonlearnings = "lessonlearnings"
name_of lessonlearningdocuments = "lessonlearningdocuments"
name_of lessonplans = "lessonplans"
name_of lessonpractices = "lessonpractices"
name_of lessonquizzes = "lessonquizzes"
name_of lessonpracticequestions = "lessonpracticequestions"
name_of lessonquizquestions = "lessonquizquestions"
name_of levelquizquestions = "levelquizquestions"
name_of contenttranslations = "contenttranslations"

-- TABLE_KEYS
abbrev pub table_keys : List TableKey
table_keys =
    countries ∷ schools ∷ standards ∷ subjects ∷ curriculums ∷ questions ∷ documents
    ∷ curriculumbaselines ∷ baselinequestion ∷ grades ∷ levels ∷ lessons ∷ lessonlearnings
    ∷ lessonlearningdocuments ∷ lessonplans ∷ lessonpractices ∷ lessonquizzes
    ∷ lessonpracticequestions ∷ lessonquizquestions ∷ levelquizquestions ∷ contenttranslations ∷ []

-- What a problem's message says, with the number of rows at fault where it counts rows.
pub data ProblemKind : Type 0 where
  not_an_object wrong_format wrong_scope no_header_id no_header_code roster_key unknown_key
        not_one_organisation invalid_organisation other_organisation other_code not_an_array
        too_many_rows not_rows no_id duplicate_ids foreign_rows ownerless_rows missing_parent
        missing_row no_type unknown_type body_not_null no_document video_not_video bad_title
        null_licence unknown_licence bad_attribution bad_role bad_order repeated_pairs
        no_base_language bad_table bad_field answer_bearing bad_subkey bad_language
        base_language_rows bad_text bad_hash bad_date repeated_translations missing_translated
        bad_list not_valid :
      ProblemKind

pub record Problem : Type 0 where
  pub field : String
  pub kind : ProblemKind
  pub row_count : ℕ

-- One problem if rows are at fault.
abbrev pub counted : String → ProblemKind → ℕ → List Problem
counted field kind zero = []
counted field kind (suc n) = record { field = field; kind = kind; row_count = suc n } ∷ []

abbrev pub one_problem : String → ProblemKind → List Problem
one_problem field kind = record { field = field; kind = kind; row_count = 0 } ∷ []

abbrev pub unless : Bool → List Problem → List Problem
unless fine problems = if fine then [] else problems

-- The tests of the runtime's regular expressions and of its other parsers, and the schema of an
-- organisation's row: the field of its first problem, if it has one.
pub record Tests (N : Type 0) : Type 0 where
  pub is_uuid : String → Bool
  pub is_organisation_code : String → Bool
  pub is_language_code : String → Bool
  pub is_sha256 : String → Bool
  pub is_date : String → Bool
  pub has_control_character : String → Bool
  pub starts_as_http : String → Bool
  -- the protocol and the host name of an address that parses
  pub parse_url : String → Option (String × String)
  pub byte_length : String → ℕ
  pub json_byte_length : Value N → ℕ
  pub organisation_problem : Value N → Option String

abbrev pub max_rows_per_table : ℕ
max_rows_per_table = 200000

abbrev pub id_max_length : ℕ
id_max_length = 36

module _ {N : Type 0} where
  abbrev pub is_row : Value N → Bool
  is_row (obj fs) = true
  is_row _ = false

  abbrev pub is_id : Value N → Bool
  is_id (str s) = ltb 0 (utf16_length s) && leb (utf16_length s) id_max_length
  is_id _ = false

  -- `undefined`, `null` or the empty text
  abbrev pub is_void : Value N → Bool
  is_void undefined = true
  is_void null = true
  is_void (str s) = s == ""
  is_void _ = false

  abbrev pub count : (Value N → Bool) → List (Value N) → ℕ
  count p xs = length (filter p xs)

  -- The array under the table's key, if it is one and not too long.
  unfoldable pub rows_of : Value N → TableKey → Option (List (Value N))
  rows_of body key = elim (get body (name_of key)) [
    | arr vs ↦ if leb (length (items vs)) max_rows_per_table then some (items vs) else none
    | _ ↦ none
  ]
