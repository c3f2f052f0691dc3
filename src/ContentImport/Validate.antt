-- ===== src/ContentImport/Validate.antt =====
-- src/modules/import/organisation-content.validator.ts: the whole check of a content payload. A problem
-- stands for its message; the thrown error's text, which quotes at most eight of them, is left out.
use Prim.Native.Char.{code}
use Prim.Native.String.{[], ◌∷◌}
use edtech_lms_rpi_api.Prelude.{
  ℕ, zero, suc, Bool, true, false, not, ◌&&◌, ◌||◌, Option, none, some, List, [], ◌∷◌, ◌++◌, map,
  String, ◌==◌, if◌then◌else◌, contains, eqb, Result, ok, err,
}
use edtech_lms_rpi_api.Prelude.Text.{append}
use edtech_lms_rpi_api.Js.{
  Value, arr, obj, str, num, Js, cons, nil, Fields, end, field, entries, get, property,
}
use edtech_lms_rpi_api.ContentImport.{
  TableKey, contenttranslations, lessonlearnings, lessonlearningdocuments, documents, questions,
  name_of, table_keys, Problem, one_problem, unless, Tests, not_an_object, wrong_format,
  wrong_scope, no_header_id, no_header_code, roster_key, unknown_key, not_one_organisation,
  invalid_organisation, other_organisation, other_code, not_valid, rows_of,
}
use edtech_lms_rpi_api.ContentImport.Rows.{
  concat, table_problems, shape_problems, references_problems, list_problems, each_table,
}
use edtech_lms_rpi_api.ContentImport.Media.{document_problems, item_problems, link_problems}
use edtech_lms_rpi_api.ContentImport.Translations.{text_at, translation_problems}

abbrev header_keys : List String
header_keys = "format" ∷ "organisationid" ∷ "organisationcode" ∷ "scope" ∷ "organisations" ∷ []

abbrev roster_keys : List String
roster_keys =
    "students" ∷ "studentusers" ∷ "schoolusers" ∷ "teachers" ∷ "logins" ∷ "users"
    ∷ "studentprogress" ∷ "studentprogresses" ∷ "studentpoints" ∷ "tokens" ∷ []

abbrev content_markers : List String
content_markers = "format" ∷ "scope" ∷ "organisationid" ∷ "organisationcode" ∷ "organisations" ∷ []

-- What an accepted payload is read as.
pub record OrganisationContent (N : Type 0) : Type 0 where
  pub organisationid : String
  pub organisationcode : String
  pub organisation : Value N
  pub tables : TableKey → List (Value N)

abbrev or_empty_list : {A : Type 0} → Option (List A) → List A
or_empty_list none = []
or_empty_list (some xs) = xs

abbrev dash : ℕ
dash = 45

unfoldable pub before_dash : String → String
before_dash [] = []
before_dash (c ∷ s) = let rest = before_dash s in if eqb (code c) dash then [] else c ∷ rest

unfoldable pub from_dash : String → String
from_dash [] = []
from_dash (c ∷ s) = let rest = from_dash s in if eqb (code c) dash then c ∷ s else rest

module _ (js : Js) (tests : Tests js.Num) where
  open js use {Num, to_lower}

  abbrev numeral : ℕ → Num
  numeral zero = js.zero
  numeral (suc n) = js.add (numeral n) js.one

  abbrev is_numeral : ℕ → Value Num → Bool
  is_numeral n (num m) = js.num_eq m (numeral n)
  is_numeral n _ = false

  abbrev has_key_in : List String → Fields Num → Bool
  has_key_in keys end = false
  has_key_in keys (field k v fs) = contains keys k || has_key_in keys fs

  unfoldable pub looks_like_organisation_content : Value Num → Bool
  unfolding contains
  looks_like_organisation_content (obj fs) =
      not (is_numeral 2 (get (obj fs) "format")) && has_key_in content_markers fs
  looks_like_organisation_content _ = false

  -- `headerId` and `headerCode`
  abbrev pub header_id : Value Num → Option String
  header_id body = elim (get body "organisationid") [
    | str s ↦ if tests.is_uuid s then some s else none
    | _ ↦ none
  ]

  abbrev pub header_code : Value Num → Option String
  header_code body = elim (get body "organisationcode") [
    | str s ↦ if tests.is_organisation_code s then some s else none
    | _ ↦ none
  ]

  abbrev some_text : Option String → Bool
  some_text none = false
  some_text (some s) = true

  abbrev is_text : String → Value Num → Bool
  is_text s (str t) = t == s
  is_text s _ = false

  unfoldable pub header_problems : Value Num → List Problem
  header_problems body =
      unless (is_numeral 3 (get body "format")) (one_problem "format" wrong_format)
      ++ unless (is_text "organisation" (get body "scope")) (one_problem "scope" wrong_scope)
      ++ unless (some_text (header_id body)) (one_problem "organisationid" no_header_id)
      ++ unless (some_text (header_code body)) (one_problem "organisationcode" no_header_code)

  abbrev key_problem : String → List Problem
  key_problem key =
      if contains roster_keys key
      then one_problem key roster_key
      else unless (contains (header_keys ++ map name_of table_keys) key)
          (one_problem key unknown_key)

  unfoldable pub key_problems : Fields Num → List Problem
  unfolding contains
  key_problems fs = concat js (map (λ e. key_problem e.0) (entries fs))

  -- The one row of the organisation, with the problem of its schema.
  unfoldable pub organisation_of : Value Num → Option (Value Num)
  organisation_of body = elim (get body "organisations") [
    | arr (cons row nil) ↦ elim (tests.organisation_problem row) [
      | none ↦ some row
      | some place ↦ none
    ]
    | _ ↦ none
  ]

  abbrev differs : Option String → (String → String) → String → Bool
  differs none fold s = false
  differs (some header) fold s = not (fold s == fold header)

  unfoldable pub organisation_problems : Value Num → List Problem
  organisation_problems body = elim (get body "organisations") [
    | arr (cons row nil) ↦ elim (tests.organisation_problem row) [
      | some place ↦ one_problem place invalid_organisation
      | none ↦
          unless (not (differs (header_id body) to_lower (text_at js tests row "organisationid")))
            (one_problem "organisations" other_organisation)
          ++ unless
              (not (differs (header_code body) (λ s. s) (text_at js tests row "organisationcode")))
              (one_problem "organisations" other_code)
    ]
    | _ ↦ one_problem "organisations" not_one_organisation
  ]

  -- The organisation's language, in lower case.
  abbrev base_language : Option (Value Num) → Option String
  base_language none = none
  base_language (some row) = elim (get row "contentlanguage") [
    | str s ↦ some (to_lower s)
    | _ ↦ none
  ]

  abbrev pub table_rows : Value Num → TableKey → List (Value Num)
  table_rows body key = or_empty_list (rows_of body key)

  -- Every problem, in the order in which they are found.
  unfoldable pub problems_of : Fields Num → List Problem
  unfolding header_problems key_problems organisation_problems organisation_of table_problems
      each_table shape_problems references_problems list_problems item_problems document_problems
      link_problems translation_problems rows_of
  problems_of fs =
      let body = obj fs in
      header_problems body
      ++ key_problems fs
      ++ organisation_problems body
      ++ concat js (map (table_problems js body) table_keys)
      ++ each_table js body (shape_problems js (header_id body)) table_keys
      ++ each_table js body (references_problems js body) table_keys
      ++ item_problems js tests (table_rows body documents) (table_rows body lessonlearnings)
      ++ document_problems js tests (table_rows body documents)
      ++ link_problems js tests (table_rows body lessonlearningdocuments)
      ++ translation_problems js tests body (base_language (organisation_of body))
          (table_rows body questions) (table_rows body contenttranslations)
      ++ each_table js body (list_problems js) table_keys

  -- The primary subtag in lower case, and what follows it.
  unfoldable pub normalise_language : String → String
  unfolding before_dash from_dash
  normalise_language language = append (to_lower (before_dash language)) (from_dash language)

  -- `{ ...row, key: value }` for a property that the row has.
  unfoldable pub set_property : String → Value Num → Fields Num → Fields Num
  set_property key v end = end
  set_property key v (field k w fs) =
      let rest = set_property key v fs in if k == key then field k v rest else field k w rest

  abbrev pub with_language : String → Value Num → Value Num
  with_language key (obj fs) = elim (property fs key) [
    | str s ↦ obj (set_property key (str (normalise_language s)) fs)
    | _ ↦ obj fs
  ]
  with_language key row = row

  abbrev pub stored_rows : TableKey → List (Value Num) → List (Value Num)
  stored_rows contenttranslations rows = map (with_language "language") rows
  stored_rows key rows = rows

  abbrev pub no_empty : List Problem → List Problem
  no_empty [] = one_problem "body" not_valid
  no_empty (p ∷ ps) = p ∷ ps

  abbrev pub accepted :
      Value Num
      → List Problem
      → Option String
      → Option String
      → Option (Value Num)
      → Result (List Problem) (OrganisationContent Num)
  accepted body [] (some organisationid) (some organisationcode) (some organisation) = ok (record {
    organisationid = organisationid;
    organisationcode = organisationcode;
    organisation = with_language "contentlanguage" organisation;
    tables = λ key. stored_rows key (table_rows body key);
  })
  accepted body problems headerid headercode organisation = err (no_empty problems)

  unfoldable pub validate_organisation_content :
      Value Num → Result (List Problem) (OrganisationContent Num)
  unfolding problems_of organisation_of rows_of set_property normalise_language
  validate_organisation_content (obj fs) =
      accepted (obj fs) (problems_of fs) (header_id (obj fs)) (header_code (obj fs))
        (organisation_of (obj fs))
  validate_organisation_content _ = err (one_problem "body" not_an_object)
