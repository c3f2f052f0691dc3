-- ===== src/ContentImport/Rows.antt =====
-- src/modules/import/organisation-content.validator.ts: the rows of each table: their shape, ids and
-- owners, what they refer to, and their lists of ids.
use edtech_lms_rpi_api.Prelude.{
  ℕ, suc, Bool, true, false, not, ◌&&◌, Option, none, some, List, [], ◌∷◌, ◌++◌, map, String, ◌==◌,
  if◌then◌else◌, leb, length, any, contains,
}
use edtech_lms_rpi_api.Js.{Value, arr, str, Js, items, get, is_nullish}
use edtech_lms_rpi_api.ContentImport.{
  TableKey, TableKind, owned, Reference, spec_of, name_of, Problem, counted, one_problem,
  not_an_array, too_many_rows, not_rows, no_id, duplicate_ids, foreign_rows, ownerless_rows,
  missing_parent, missing_row, bad_list, is_row, is_id, is_void, count, rows_of, max_rows_per_table,
}

module _ (js : Js) where
  open js use {Num, to_lower}

  -- The array of a table is one, and not too long.
  unfoldable pub table_problems : Value Num → TableKey → List Problem
  table_problems body key = elim (get body (name_of key)) [
    | arr vs ↦
        if leb (length (items vs)) max_rows_per_table
        then []
        else one_problem (name_of key) too_many_rows
    | _ ↦ one_problem (name_of key) not_an_array
  ]

  abbrev pub lowered : Value Num → String
  lowered (str s) = to_lower s
  lowered _ = ""

  -- The ids of the rows that have one, in lower case: the set `seen`.
  unfoldable pub ids_in : String → List (Value Num) → List String
  ids_in pk [] = []
  ids_in pk (row ∷ rows) =
      let rest = ids_in pk rows in
      if is_row row && is_id (get row pk) then lowered (get row pk) ∷ rest else rest

  -- How many of the ids are in `seen` when their turn comes.
  unfoldable pub repeats : List String → List String → ℕ
  repeats seen [] = 0
  repeats seen (id ∷ ids) =
      if contains seen id then suc (repeats seen ids) else repeats (id ∷ seen) ids

  abbrev pub is_own : Option String → Value Num → Bool
  is_own (some headerid) (str owner) = to_lower owner == to_lower headerid
  is_own header _ = false

  -- The owner is another organisation's.
  abbrev pub is_foreign : Option String → Value Num → Bool
  is_foreign header row =
      is_row row
      && not (is_void (get row "organisationid"))
      && not (is_own header (get row "organisationid"))

  abbrev pub is_ownerless : TableKind → Value Num → Bool
  is_ownerless owned row = is_row row && is_void (get row "organisationid")
  is_ownerless kind row = false

  unfoldable pub shape_problems : Option String → TableKey → List (Value Num) → List Problem
  unfolding ids_in repeats
  shape_problems header key rows =
      let pk = (spec_of key).pk in
      let name = name_of key in
      counted name not_rows (count (λ row. not (is_row row)) rows)
      ++ counted name no_id (count (λ row. is_row row && not (is_id (get row pk))) rows)
      ++ counted name duplicate_ids (repeats [] (ids_in pk rows))
      ++ counted name foreign_rows (count (is_foreign header) rows)
      ++ counted name ownerless_rows (count (is_ownerless (spec_of key).kind) rows)

  -- `idsOf[key]`; `none` where the table is malformed.
  unfoldable pub ids_of : Value Num → TableKey → Option (List String)
  unfolding rows_of ids_in
  ids_of body key = elim (rows_of body key) [
    | none ↦ none
    | some rows ↦ some (ids_in (spec_of key).pk rows)
  ]

  -- The row does not name a row of the payload.
  abbrev pub dangles : Reference → List String → Value Num → Bool
  dangles ref targets row =
      is_row row
      && (if is_void (get row ref.fk)
          then not ref.is_optional
          else elim (get row ref.fk) [ str id ↦ not (contains targets (to_lower id)) | _ ↦ true ])

  unfoldable pub reference_problems :
      Value Num → TableKey → List (Value Num) → Bool → Reference → List Problem
  unfolding ids_of
  reference_problems body key rows is_parent ref = elim (ids_of body ref.to) [
    | none ↦ []
    | some targets ↦
        counted (name_of key) (if is_parent then missing_parent else missing_row)
          (count (dangles ref targets) rows)
  ]

  abbrev pub concat : List (List Problem) → List Problem
  concat [] = []
  concat (xs ∷ xss) = xs ++ concat xss

  unfoldable pub references_problems : Value Num → TableKey → List (Value Num) → List Problem
  unfolding reference_problems
  references_problems body key rows =
      let spec = spec_of key in
      (elim spec.parent [ none ↦ [] | some ref ↦ reference_problems body key rows true ref ])
      ++ concat (map (reference_problems body key rows false) spec.refs)

  -- Not a list of ids.
  abbrev pub is_bad_list : String → Value Num → Bool
  is_bad_list fk row =
      is_row row
      && not (is_nullish (get row fk))
      && (elim (get row fk) [ arr vs ↦ any (λ id. not (is_id id)) (items vs) | _ ↦ true ])

  unfoldable pub list_problems : TableKey → List (Value Num) → List Problem
  list_problems key rows =
      concat (
        map (λ l. counted (name_of key) bad_list (count (is_bad_list l.0) rows))
          (spec_of key).lists)

  -- A check of every table that is well formed, in the order of the tables.
  unfoldable pub each_table :
      Value Num → (TableKey → List (Value Num) → List Problem) → List TableKey → List Problem
  unfolding rows_of
  each_table body check [] = []
  each_table body check (key ∷ keys) =
      let rest = each_table body check keys in
      (elim (rows_of body key) [ none ↦ [] | some rows ↦ check key rows ]) ++ rest
