-- ===== src/ContentImport/Closed.antt =====
-- What an accepted content payload is (src/modules/import/organisation-content.validator.ts).
use mathlib.Core.Path.{subst}
use edtech_lms_rpi_api.Prelude.{
  ◌≡◌, refl, sym, ap, inl, inr, Bool, true, false, Option, none, some, List, [], ◌∷◌, ◌++◌, map,
  String, if◌then◌else◌, leb, length, All, All-append, All-map, IsNodup, arith, Bool-cases, ok,
  ok-injective, err-not-ok,
}
use edtech_lms_rpi_api.Js.{Value, undefined, null, bool, num, str, arr, obj, Js, Fields, get, items}
use edtech_lms_rpi_api.ContentImport.{
  TableKey, table_keys, spec_of, name_of, Reference, Problem, one_problem, too_many_rows,
  not_an_array, Tests, is_row, rows_of, max_rows_per_table,
}
use edtech_lms_rpi_api.ContentImport.Rows.{
  ids_in, table_problems, shape_problems, reference_problems, references_problems, concat,
  each_table,
}
use edtech_lms_rpi_api.ContentImport.Validate.{
  OrganisationContent, header_id, header_code, organisation_of, table_rows, stored_rows,
  problems_of, accepted, validate_organisation_content,
}
use edtech_lms_rpi_api.ContentImport.Sound.{
  append-nil, of_all, IsSound, shape-IsSound, NamesRow, reference-NamesRow,
}

-- The parent and the other references of a table's rows.
abbrev pub references_of : TableKey → List Reference
references_of key =
    (elim (spec_of key).parent [ none ↦ [] | some ref ↦ ref ∷ [] ]) ++ (spec_of key).refs

module _ (js : Js) where
  open js use {Num}

  concat-nil :
      {A : Type 0} (f : A → List Problem) (xs : List A)
      → concat js (map f xs) ≡ []
      → All (λ x. f x ≡ []) xs
  concat-nil f [] h = tt
  concat-nil f (x ∷ xs) h =
      let (a, b) = append-nil (f x) (concat js (map f xs)) h in (a, concat-nil f xs b)

  each_table-nil :
      (body : Value Num) (check : TableKey → List (Value Num) → List Problem) (keys : List TableKey)
      → each_table js body check keys ≡ []
      → All
          (λ key. (rows : List (Value Num)) → rows_of body key ≡ some rows → check key rows ≡ [])
          keys
  unfolding each_table
  each_table-nil body check [] h = tt
  each_table-nil body check (key ∷ keys) h =
      let (a, b) = append-nil _ (each_table js body check keys) h in
      ((λ rows e. rw e at a), each_table-nil body check keys b)

  -- A table with no problem of its own has rows.
  table-rows :
      (body : Value Num) (key : TableKey)
      → table_problems js body key ≡ []
      → (rows : List (Value Num)) × (rows_of body key ≡ some rows)
  unfolding table_problems rows_of
  table-rows body key h = found (get body (name_of key)) h
    where
      found :
          (v : Value Num)
          → (elim v [
            | arr vs ↦
                if leb (length (items vs)) max_rows_per_table
                then []
                else one_problem (name_of key) too_many_rows
            | _ ↦ one_problem (name_of key) not_an_array
          ])
            ≡ []
          → (rows : List (Value Num)) × ((elim v [
            | arr vs ↦ if leb (length (items vs)) max_rows_per_table then some (items vs) else none
            | _ ↦ none
          ])
              ≡ some rows)
      found (arr vs) h = elim (Bool-cases (leb (length (items vs)) max_rows_per_table)) [
        | inl e ↦ (items vs, rw e refl)
        | inr e ↦ absurd (ground (arith, rw e at h))
      ]
      found undefined h = absurd (ground arith)
      found null h = absurd (ground arith)
      found (bool b) h = absurd (ground arith)
      found (num n) h = absurd (ground arith)
      found (str s) h = absurd (ground arith)
      found (obj fs) h = absurd (ground arith)

  module _ (tests : Tests Num) where
    accepted-parts :
        (body : Value Num) (problems : List Problem) (headerid headercode : Option String)
        (organisation : Option (Value Num)) (content : OrganisationContent Num)
        → accepted js tests body problems headerid headercode organisation ≡ ok content
        → (problems ≡ [])
          × (headerid ≡ some content.organisationid)
          × ((key : TableKey)
              → content.tables key ≡ stored_rows js tests key (table_rows js tests body key))
    accepted-parts body [] (some a) (some b) (some c) content h =
        let e = ok-injective _ _ h in
        (refl, ap (λ s. some s.organisationid) e, λ key. ap (λ s. s.tables key) (sym e))
    accepted-parts body [] none b c content h = absurd (err-not-ok _ _ h)
    accepted-parts body [] (some a) none c content h = absurd (err-not-ok _ _ h)
    accepted-parts body [] (some a) (some b) none content h = absurd (err-not-ok _ _ h)
    accepted-parts body (p ∷ ps) a b c content h = absurd (err-not-ok _ _ h)

    references-NamesRow :
        (body : Value Num) (key : TableKey) (rows : List (Value Num))
        → ((other : TableKey) → (targets : List (Value Num)) × (rows_of body other ≡ some targets))
        → All (λ row. is_row row ≡ true) rows
        → references_problems js body key rows ≡ []
        → All (λ ref. All (NamesRow js tests body ref) rows) (references_of key)
    unfolding references_problems
    references-NamesRow body key rows found there h =
        let (a, b) = append-nil _ _ h in
        All-append (λ ref. All (NamesRow js tests body ref) rows) _ _
          (of_parent (spec_of key).parent a)
          (All-map (λ ref. reference_problems js body key rows false ref ≡ [])
            (λ ref. All (NamesRow js tests body ref) rows) (named false) (spec_of key).refs
            (concat-nil (reference_problems js body key rows false) (spec_of key).refs b))
      where
        named :
            (is_parent : Bool) (ref : Reference)
            → reference_problems js body key rows is_parent ref ≡ []
            → All (NamesRow js tests body ref) rows
        named is_parent ref e =
            reference-NamesRow js tests body key rows (found ref.to).0 is_parent ref
              (found ref.to).1 there e

        of_parent :
            (parent : Option Reference)
            → (elim parent [ none ↦ [] | some ref ↦ reference_problems js body key rows true ref ])
              ≡ []
            → All
                (λ ref. All (NamesRow js tests body ref) rows)
                (elim parent [ none ↦ [] | some ref ↦ ref ∷ [] ])
        of_parent none e = tt
        of_parent (some ref) e = (named true ref e, tt)

    -- A payload that is accepted is closed: in each of its tables every row is an object with an id of
    -- its own (up to case), is the organisation's of the header or, in a table whose rows have no owner,
    -- nobody's, and names by each of its references a row of this same payload; an optional reference may
    -- be empty. The row that a translation names by its table and id is no such reference. The tables
    -- are stored as they are, but for the languages of the translations.
    pub validated-IsClosed :
        (fs : Fields Num) (content : OrganisationContent Num)
        → validate_organisation_content js tests (obj fs) ≡ ok content
        → (key : TableKey)
        → let rows = table_rows js tests (obj fs) key in
          (content.tables key ≡ stored_rows js tests key rows)
          × All (IsSound js content.organisationid key) rows
          × IsNodup (ids_in js (spec_of key).pk rows)
          × All (λ ref. All (NamesRow js tests (obj fs) ref) rows) (references_of key)
    unfolding validate_organisation_content problems_of
    validated-IsClosed fs content h key =
        let body = obj fs in
        let (none_found, header, tables) =
          accepted-parts body (problems_of js tests fs) (header_id js tests body)
            (header_code js tests body) (organisation_of js tests body) content h in
        let (p10, lists) = append-nil _ _ none_found in
        let (p9, translations) = append-nil _ _ p10 in
        let (p8, links) = append-nil _ _ p9 in
        let (p7, docs) = append-nil _ _ p8 in
        let (p6, learning) = append-nil _ _ p7 in
        let (p5, refs) = append-nil _ _ p6 in
        let (p4, shapes) = append-nil _ _ p5 in
        let (p3, arrays) = append-nil _ _ p4 in
        let found : (other : TableKey)
            → (rows : List (Value Num)) × (rows_of body other ≡ some rows) =
          λ other. table-rows body other (
            of_all (λ k. table_problems js body k ≡ [])
              (concat-nil (table_problems js body) table_keys arrays) other) in
        let checked : (check : TableKey → List (Value Num) → List Problem)
            → each_table js body check table_keys ≡ []
            → (rows : List (Value Num)) → rows_of body key ≡ some rows
            → check key rows ≡ [] =
          λ check none_of.
            of_all (λ k. (rows : List (Value Num)) → rows_of body k ≡ some rows → check k rows ≡ [])
              (each_table-nil body check table_keys none_of) key in
        let (rows, e) = found key in
        let check = checked (shape_problems js (header_id js tests body)) shapes rows e in
        let (sound, once) =
          shape-IsSound js content.organisationid key rows
            (subst (λ o. shape_problems js o key rows ≡ []) header check) in
        let named =
          references-NamesRow body key rows found
            (All-map (IsSound js content.organisationid key) (λ row. is_row row ≡ true)
              (λ row s. s.0) rows sound)
            (checked (references_problems js body) refs rows e) in
        (tables key, rw e sound, rw e once, rw e named)
