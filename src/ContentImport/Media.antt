-- ===== src/ContentImport/Media.antt =====
-- src/constants/media-library.ts and src/constants/learning-items.ts, and the checks of learning
-- items, documents and links of src/modules/import/organisation-content.validator.ts.
use edtech_lms_rpi_api.Prelude.{
  ℕ, Bool, true, false, not, ◌&&◌, ◌||◌, Option, none, some, List, [], ◌∷◌, ◌++◌, String, ◌==◌,
  if◌then◌else◌, ltb, any, contains,
}
use edtech_lms_rpi_api.Prelude.Text.{append, trim, is_empty, utf16_length}
use edtech_lms_rpi_api.Js.{
  Value, obj, str, num, undefined, null, Js, Fields, field, end, entries, get, is_nullish,
  is_string,
}
use edtech_lms_rpi_api.ContentImport.{
  Problem, counted, Tests, no_type, unknown_type, body_not_null, no_document, video_not_video,
  bad_title, null_licence, unknown_licence, bad_attribution, bad_role, bad_order, repeated_pairs,
  is_row, is_id, is_void, count,
}
use edtech_lms_rpi_api.ContentImport.Rows.{lowered, repeats}

-- DOCUMENT_LICENCES
abbrev document_licences : List String
document_licences =
    "CC0-1.0" ∷ "CC-BY-4.0" ∷ "CC-BY-3.0" ∷ "CC-BY-2.0" ∷ "CC-BY-SA-4.0" ∷ "CC-BY-SA-3.0"
    ∷ "CC-BY-SA-2.0" ∷ "CC-BY-NC-4.0" ∷ "CC-BY-NC-3.0" ∷ "CC-BY-NC-2.0" ∷ "CC-BY-NC-SA-4.0"
    ∷ "CC-BY-NC-SA-3.0" ∷ "CC-BY-NC-SA-2.0" ∷ "CC-BY-ND-4.0" ∷ "CC-BY-ND-3.0" ∷ "CC-BY-ND-2.0"
    ∷ "CC-BY-NC-ND-4.0" ∷ "CC-BY-NC-ND-3.0" ∷ "CC-BY-NC-ND-2.0" ∷ "LicenseRef-all-rights-reserved"
    ∷ "unspecified" ∷ []

-- A value to store, or a refusal.
pub data Normalised {ℓ} (A : Type ℓ) : Type ℓ where
  refused : Normalised A
  stored : Option A → Normalised A

abbrev is_refused : {A : Type 0} → Normalised A → Bool
is_refused refused = true
is_refused (stored v) = false

abbrev title_max : ℕ
title_max = 255

abbrev text_max : String → ℕ
text_max key = if key == "author" then 255 else if key == "sourceurl" then 2048 else 1024

abbrev attribution_max_bytes : ℕ
attribution_max_bytes = 4096

-- An absolute http or https address with a host.
unfoldable pub is_http_url : {N : Type 0} → Tests N → String → Bool
is_http_url tests value = tests.starts_as_http value && (elim (tests.parse_url value) [
  | none ↦ false
  | some url ↦ (url.0 == "http:" || url.0 == "https:") && not (is_empty url.1)
])

module _ (js : Js) (tests : Tests js.Num) where
  open js use {Num, to_lower}

  unfoldable pub normalise_document_title : Value Num → Normalised String
  unfolding trim utf16_length
  normalise_document_title null = stored none
  normalise_document_title undefined = stored none
  normalise_document_title (str s) =
      let trimmed = trim s in
      if is_empty trimmed
      then stored none
      else if ltb title_max (utf16_length trimmed) || tests.has_control_character trimmed
      then refused
      else stored (some trimmed)
  normalise_document_title _ = refused

  unfoldable pub is_document_licence : Value Num → Bool
  unfolding contains
  is_document_licence (str s) = contains document_licences s
  is_document_licence _ = false

  -- The loop over the text keys of an attribution, with what is kept so far (in reverse).
  unfoldable pub kept_texts : Value Num → List String → Option (Fields Num)
  unfolding is_http_url
  kept_texts given [] = some end
  kept_texts given (key ∷ keys) =
      let rest = kept_texts given keys in
      elim (get given key) [
        | undefined ↦ rest
        | str text ↦
            let trimmed = trim text in
            if is_empty trimmed
            then rest
            else if ltb (text_max key) (utf16_length trimmed)
            then none
            else if key == "sourceurl" && not (is_http_url tests trimmed)
            then none
            else elim rest [ none ↦ none | some fs ↦ some (field key (str trimmed) fs) ]
        | _ ↦ none
      ]

  abbrev pub attribution_keys : List String
  attribution_keys = "author" ∷ "sourceurl" ∷ "adaptedfrom" ∷ []

  abbrev is_one : Value Num → Bool
  is_one (num n) = js.num_eq n js.one
  is_one _ = false

  unfoldable pub normalise_document_attribution : Value Num → Normalised (Value Num)
  unfolding kept_texts contains
  normalise_document_attribution null = stored none
  normalise_document_attribution undefined = stored none
  normalise_document_attribution (obj given) =
      if not (is_one (get (obj given) "v"))
      then refused
      else if any (λ e. not (contains ("v" ∷ attribution_keys) e.0)) (entries given)
      then refused
      else elim (kept_texts (obj given) attribution_keys) [
        | none ↦ refused
        | some kept ↦
            let whole = obj (field "v" (num js.one) kept) in
            if ltb attribution_max_bytes (tests.json_byte_length whole)
            then refused
            else stored (elim (entries kept) [ [] ↦ none | e ∷ es ↦ some whole ])
      ]
  normalise_document_attribution _ = refused

  abbrev is_undefined : Value Num → Bool
  is_undefined undefined = true
  is_undefined _ = false

  abbrev is_null : Value Num → Bool
  is_null null = true
  is_null _ = false

  abbrev present : String → Value Num → Bool
  present key row = is_row row && not (is_undefined (get row key))

  unfoldable pub document_problems : List (Value Num) → List Problem
  unfolding normalise_document_title is_document_licence normalise_document_attribution
  document_problems docs =
      counted "documents" bad_title (
        count
          (λ row.
            present "documenttitle" row
            && is_refused (normalise_document_title (get row "documenttitle")))
          docs)
      ++ counted "documents" null_licence
          (count (λ row. present "documentlicence" row && is_null (get row "documentlicence")) docs)
      ++ counted "documents" unknown_licence (
          count
            (λ row.
              present "documentlicence" row
              && not (is_null (get row "documentlicence"))
              && not (is_document_licence (get row "documentlicence")))
            docs)
      ++ counted "documents" bad_attribution (
          count
            (λ row.
              present "documentattribution" row
              && is_refused (normalise_document_attribution (get row "documentattribution")))
            docs)

  -- The last entry of a map that is filled from the rows: an id in lower case, and a column.
  unfoldable pub column_of : String → String → String → List (Value Num) → Option (Value Num)
  column_of pk key id [] = none
  column_of pk key id (row ∷ rows) = elim (column_of pk key id rows) [
    | some v ↦ some v
    | none ↦
        if is_row row && is_id (get row pk) && lowered js (get row pk) == id
        then some (get row key)
        else none
  ]

  -- The type of a learning item: the text, if there is one.
  abbrev type_of : Value Num → String
  type_of (str s) = s
  type_of _ = ""

  -- `video` is the one type, needs a document and has no body.
  abbrev is_video_item : Value Num → Bool
  is_video_item row = is_row row && type_of (get row "lessonlearningtype") == "video"

  abbrev is_video_document : Value Num → Bool
  is_video_document (num n) = js.num_eq n (js.add js.one js.one)
  is_video_document _ = false

  abbrev names_other_file : List (Value Num) → Value Num → Bool
  names_other_file docs row = elim (get row "documentid") [
    | str id ↦ elim (column_of "documentid" "documenttypeid" (to_lower id) docs) [
      | none ↦ false
      | some kind ↦ not (is_video_document kind)
    ]
    | _ ↦ false
  ]

  unfoldable pub item_problems : List (Value Num) → List (Value Num) → List Problem
  unfolding column_of
  item_problems docs item_rows =
      counted "lessonlearnings" no_type
        (count (λ row. is_row row && is_empty (type_of (get row "lessonlearningtype"))) item_rows)
      ++ counted "lessonlearnings" unknown_type (
          count
            (λ row.
              is_row row
              && not (is_empty (type_of (get row "lessonlearningtype")))
              && not (type_of (get row "lessonlearningtype") == "video"))
            item_rows)
      ++ counted "lessonlearnings" body_not_null (
          count (λ row. is_video_item row && not (is_nullish (get row "lessonlearningbody")))
            item_rows)
      ++ counted "lessonlearnings" no_document
          (count (λ row. is_video_item row && is_void (get row "documentid")) item_rows)
      ++ counted "lessonlearnings" video_not_video
          (count (λ row. is_video_item row && names_other_file docs row) item_rows)

  abbrev is_role : Value Num → Bool
  is_role (str s) = contains ("rendition" ∷ "asset" ∷ []) s
  is_role _ = false

  abbrev is_order : Value Num → Bool
  is_order undefined = true
  is_order (num n) = js.is_integer n
  is_order _ = false

  -- The pairs of the link rows that have both ids, in lower case and joined by a slash.
  unfoldable pub pairs_of : List (Value Num) → List String
  pairs_of [] = []
  pairs_of (row ∷ rows) =
      let rest = pairs_of rows in
      if is_row row && is_string (get row "lessonlearningid") && is_string (get row "documentid")
      then append (lowered js (get row "lessonlearningid"))
          (append "/" (lowered js (get row "documentid")))
        ∷ rest
      else rest

  unfoldable pub link_problems : List (Value Num) → List Problem
  unfolding pairs_of repeats contains
  link_problems links =
      counted "lessonlearningdocuments" bad_role
        (count (λ row. is_row row && not (is_role (get row "lessonlearningdocumentrole"))) links)
      ++ counted "lessonlearningdocuments" bad_order (
          count (λ row. is_row row && not (is_order (get row "lessonlearningdocumentorder"))) links)
      ++ counted "lessonlearningdocuments" repeated_pairs (repeats js [] (pairs_of links))
