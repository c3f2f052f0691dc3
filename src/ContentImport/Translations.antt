-- ===== src/ContentImport/Translations.antt =====
-- src/constants/content-translations.ts, and the checks of translations of
-- src/modules/import/organisation-content.validator.ts.
use edtech_lms_rpi_api.Prelude.{
  ℕ, Bool, false, not, ◌&&◌, ◌||◌, Option, none, some, List, [], ◌∷◌, ◌++◌, map, String, ◌==◌,
  if◌then◌else◌, leb, filter, contains, set_of,
}
use edtech_lms_rpi_api.Prelude.Text.{append, is_empty, is_blank, utf16_length}
use edtech_lms_rpi_api.Js.{Value, str, num, Js, get, is_string, lookup}
use edtech_lms_rpi_api.ContentImport.{
  TableKey, contenttranslations, name_of, table_keys, Problem, counted, one_problem, Tests,
  no_base_language, bad_table, bad_field, answer_bearing, bad_subkey, bad_language,
  base_language_rows, bad_text, bad_hash, bad_date, repeated_translations, missing_translated,
  is_row, count,
}
use edtech_lms_rpi_api.ContentImport.Rows.{repeats, ids_of, concat}
use edtech_lms_rpi_api.ContentImport.Media.{column_of}

-- TRANSLATABLE_FIELDS
abbrev pub translatable_fields : List (String × List String)
translatable_fields =
    ("curriculums", "curriculumname" ∷ "curriculumdescription" ∷ [])
    ∷ ("grades", "gradename" ∷ "gradedescription" ∷ [])
    ∷ ("levels", "levelname" ∷ "leveldescription" ∷ [])
    ∷ ("lessons", "lessonname" ∷ "lessondescription" ∷ [])
    ∷ ("lessonlearnings", "lessonlearningname" ∷ "lessonlearningdescription" ∷ [])
    ∷ ("lessonpractices", "lessonpracticename" ∷ "lessonpracticedescription" ∷ [])
    ∷ ("lessonquizzes", "lessonquizname" ∷ "lessonquizdescription" ∷ [])
    ∷ ("lessonplans", "lessonplanname" ∷ "lessonplandescription" ∷ [])
    ∷ (
      "questions",
      "questiontext" ∷ "headingtext" ∷ "questionoptiontext" ∷ "questionassociatetext"
          ∷ "questiondistractortext" ∷ "feedback" ∷ [],
    )
    ∷ []

-- SUBKEYED_FIELDS
abbrev subkeyed_fields : List String
subkeyed_fields =
    "questionoptiontext" ∷ "questionassociatetext" ∷ "questiondistractortext" ∷ "feedback" ∷ []

-- FEEDBACK_KEYS
abbrev feedback_keys : List String
feedback_keys = "correctmessage" ∷ "incorrectmessage" ∷ []

-- ANSWER_BEARING_FIELDS, by the template's number as a property name
abbrev pub answer_bearing_fields : String → List String
answer_bearing_fields template =
    if template == "8"
    then "questiontext" ∷ []
    else if template == "21"
    then "questiontext" ∷ "questionoptiontext" ∷ []
    else if template == "23"
    then "questiontext" ∷ []
    else []

abbrev subkey_max_length : ℕ
subkey_max_length = 64

abbrev translation_text_max_bytes : ℕ
translation_text_max_bytes = 65535

abbrev pub fields_of : String → List String
unfolding lookup
fields_of tablename = elim (lookup tablename translatable_fields) [ none ↦ [] | some fs ↦ fs ]

module _ (js : Js) (tests : Tests js.Num) where
  open js use {Num, to_lower}

  unfoldable pub is_answer_bearing : Value Num → String → Bool
  unfolding contains
  is_answer_bearing (num n) field = contains (answer_bearing_fields (js.text_of n)) field
  is_answer_bearing (str s) field =
      not (is_blank s) && contains (answer_bearing_fields (js.text_of (js.of_text s))) field
  is_answer_bearing _ field = false

  abbrev pub text_at : Value Num → String → String
  text_at row key = elim (get row key) [ str s ↦ s | _ ↦ "" ]

  -- `knownTable` and `knownField`; a name that is no text is in no list.
  abbrev pub is_known_table : Value Num → Bool
  is_known_table row =
      is_row row
      && is_string (get row "tablename")
      && contains (map (λ e. e.0) translatable_fields) (text_at row "tablename")

  abbrev pub is_known_field : Value Num → Bool
  is_known_field row =
      is_known_table row
      && is_string (get row "field")
      && contains (fields_of (text_at row "tablename")) (text_at row "field")

  -- The translated field of a question is one that its answers are graded by.
  abbrev pub is_graded : List (Value Num) → Value Num → Bool
  is_graded asked row =
      is_known_field row
      && text_at row "tablename" == "questions"
      && is_string (get row "rowid")
      && (elim (column_of js tests "questionid" "templatetypeid" (to_lower (text_at row "rowid"))
          asked) [
            | none ↦ false
            | some template ↦ is_answer_bearing template (text_at row "field")
          ])

  abbrev follows_subkey_rule : Value Num → Bool
  follows_subkey_rule row =
      let subkey = text_at row "subkey" in
      let field = text_at row "field" in
      is_string (get row "subkey")
      && (if contains subkeyed_fields field
          then not (is_empty subkey) && leb (utf16_length subkey) subkey_max_length
          else is_empty subkey)
      && (not (field == "feedback") || contains feedback_keys subkey)

  abbrev has_language : Value Num → Bool
  has_language row =
      is_string (get row "language") && tests.is_language_code (text_at row "language")

  abbrev in_base : Option String → Value Num → Bool
  in_base none row = false
  in_base (some base) row = has_language row && to_lower (text_at row "language") == base

  abbrev has_text : Value Num → Bool
  has_text row =
      is_string (get row "text")
      && not (is_empty (text_at row "text"))
      && leb (tests.byte_length (text_at row "text")) translation_text_max_bytes

  -- The ids of the table with that name.
  abbrev ids_named : Value Num → String → List TableKey → List String
  ids_named body name [] = []
  ids_named body name (key ∷ keys) =
      if name_of key == name
      then elim (ids_of js body key) [ none ↦ [] | some ids ↦ ids ]
      else ids_named body name keys

  -- A known table whose row is not in the payload.
  abbrev pub names_no_row : Value Num → Value Num → Bool
  names_no_row body row =
      is_known_table row
      && not (
          is_string (get row "rowid")
          && contains (ids_named body (text_at row "tablename") table_keys)
              (to_lower (text_at row "rowid")))

  -- What a translation is of, its parts in lower case and separated by a character that is in none.
  unfoldable pub translation_keys : List (Value Num) → List String
  unfolding contains
  translation_keys [] = []
  translation_keys (row ∷ rows) =
      let rest = translation_keys rows in
      let part = λ (key : String). append (to_lower (text_at row key)) "\0" in
      if is_known_field row
        && is_string (get row "rowid")
        && is_string (get row "subkey")
        && is_string (get row "language")
      then append (part "tablename") (
          append (part "rowid")
            (append (part "field") (append (part "subkey") (to_lower (text_at row "language")))))
        ∷ rest
      else rest

  -- The tables named by the rows that name no row, each once, in the order of the rows.
  abbrev tables_named : Value Num → List (Value Num) → List String
  tables_named body rows =
      set_of (map (λ row. text_at row "tablename") (filter (names_no_row body) rows))

  abbrev lacks : (Value Num → Bool) → List (Value Num) → ℕ
  lacks good rows = count (λ row. is_row row && not (good row)) rows

  -- `base` is the organisation's language in lower case.
  unfoldable pub translation_problems :
      Value Num → Option String → List (Value Num) → List (Value Num) → List Problem
  unfolding is_answer_bearing column_of translation_keys repeats contains set_of ids_of
  translation_problems body base asked [] = []
  translation_problems body base asked (first ∷ others) =
      let rows = first ∷ others in
      let name = name_of contenttranslations in
      (elim base [ none ↦ one_problem name no_base_language | some language ↦ [] ])
      ++ counted name bad_table (lacks is_known_table rows)
      ++ counted name bad_field (count (λ row. is_known_table row && not (is_known_field row)) rows)
      ++ counted name answer_bearing (count (is_graded asked) rows)
      ++ counted name bad_subkey
          (count (λ row. is_known_field row && not (follows_subkey_rule row)) rows)
      ++ counted name bad_language (lacks has_language rows)
      ++ counted name base_language_rows (count (λ row. is_row row && in_base base row) rows)
      ++ counted name bad_text (lacks has_text rows)
      ++ counted name bad_hash (
          lacks
            (λ row. is_string (get row "sourcehash") && tests.is_sha256 (text_at row "sourcehash"))
            rows)
      ++ counted name bad_date (
          lacks
            (λ row. is_string (get row "lastupdated") && tests.is_date (text_at row "lastupdated"))
            rows)
      ++ counted name repeated_translations (repeats js [] (translation_keys rows))
      ++ (concat js (
          map
            (λ table.
              counted name missing_translated
                (count (λ row. names_no_row body row && text_at row "tablename" == table) rows))
            (tables_named body rows)))
