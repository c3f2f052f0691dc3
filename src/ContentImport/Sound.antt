-- ===== src/ContentImport/Sound.antt =====
-- What the checks of the tables of a content payload leave (src/modules/import/organisation-content.validator.ts).
use mathlib.Core.Path.{subst}
use edtech_lms_rpi_api.Prelude.{
  ℕ, suc, zero, ◌≡◌, refl, sym, inl, inr, Bool, true, false, not, ◌&&◌, ◌||◌, some, List, [], ◌∷◌,
  ◌++◌, String, ◌==◌, ◌⊎◌, ◌≢◌, eq_iff, All, All-map, IsNodup, contains, arith, Bool-cases,
}
use edtech_lms_rpi_api.Js.{Value, undefined, null, bool, num, arr, obj, str, Js, get}
use edtech_lms_rpi_api.ContentImport.{
  TableKey, TableKind, countries, schools, standards, subjects, curriculums, questions, documents,
  curriculumbaselines, baselinequestion, grades, levels, lessons, lessonlearnings,
  lessonlearningdocuments, lessonplans, lessonpractices, lessonquizzes, lessonpracticequestions,
  lessonquizquestions, levelquizquestions, contenttranslations, table_keys, spec_of, Reference,
  ProblemKind, counted, Tests, is_row, is_id, is_void, count, rows_of, owned,
}
use edtech_lms_rpi_api.ContentImport.Rows.{
  ids_in, repeats, is_own, is_foreign, is_ownerless, shape_problems, ids_of, dangles,
  reference_problems,
}
use edtech_lms_rpi_api.ContentImport.Validate.{table_rows}

module _ {A : Type 0} where
  pub append-nil : (xs ys : List A) → xs ++ ys ≡ [] → (xs ≡ []) × (ys ≡ [])
  append-nil [] ys h = (refl, h)
  append-nil (x ∷ xs) ys h = ground arith

counted-nil : (name : String) (kind : ProblemKind) (n : ℕ) → counted name kind n ≡ [] → n ≡ 0
counted-nil name kind zero h = refl
counted-nil name kind (suc n) h = ground arith

module _ {N : Type 0} where
  count-zero :
      (p : Value N → Bool) (xs : List (Value N)) → count p xs ≡ 0 → All (λ x. p x ≡ false) xs
  count-zero p [] h = tt
  count-zero p (x ∷ xs) h = elim (Bool-cases (p x)) [
    | inl e ↦ absurd (ground (arith, rw e at h))
    | inr e ↦ (e, count-zero p xs (rw e at h))
  ]

module _ (P : TableKey → Type 0) where
  -- Every table is one of the tables that the checks walk over.
  pub of_all : All P table_keys → (key : TableKey) → P key
  of_all h countries = h.0
  of_all h schools = h.1.0
  of_all h standards = h.1.1.0
  of_all h subjects = h.1.1.1.0
  of_all h curriculums = h.1.1.1.1.0
  of_all h questions = h.1.1.1.1.1.0
  of_all h documents = h.1.1.1.1.1.1.0
  of_all h curriculumbaselines = h.1.1.1.1.1.1.1.0
  of_all h baselinequestion = h.1.1.1.1.1.1.1.1.0
  of_all h grades = h.1.1.1.1.1.1.1.1.1.0
  of_all h levels = h.1.1.1.1.1.1.1.1.1.1.0
  of_all h lessons = h.1.1.1.1.1.1.1.1.1.1.1.0
  of_all h lessonlearnings = h.1.1.1.1.1.1.1.1.1.1.1.1.0
  of_all h lessonlearningdocuments = h.1.1.1.1.1.1.1.1.1.1.1.1.1.0
  of_all h lessonplans = h.1.1.1.1.1.1.1.1.1.1.1.1.1.1.0
  of_all h lessonpractices = h.1.1.1.1.1.1.1.1.1.1.1.1.1.1.1.0
  of_all h lessonquizzes = h.1.1.1.1.1.1.1.1.1.1.1.1.1.1.1.1.0
  of_all h lessonpracticequestions = h.1.1.1.1.1.1.1.1.1.1.1.1.1.1.1.1.1.0
  of_all h lessonquizquestions = h.1.1.1.1.1.1.1.1.1.1.1.1.1.1.1.1.1.1.0
  of_all h levelquizquestions = h.1.1.1.1.1.1.1.1.1.1.1.1.1.1.1.1.1.1.1.0
  of_all h contenttranslations = h.1.1.1.1.1.1.1.1.1.1.1.1.1.1.1.1.1.1.1.1.0

contains-fresh :
    (id : String) (seen ids : List String)
    → All (λ j. contains (id ∷ seen) j ≡ false) ids
    → contains ids id ≡ false
unfolding contains
contains-fresh id seen [] h = refl
contains-fresh id seen (x ∷ ids) h = elim (Bool-cases (x == id)) [
  | inl e ↦
      let there : (id == x) ≡ true = (eq_iff id x).1 (sym ((eq_iff x id).0 e)) in
      absurd (ground (arith, rw there at h.0))
  | inr e ↦ rw e (contains-fresh id seen ids h.1)
]

or_false : (a b : Bool) → (a || b) ≡ false → b ≡ false
or_false true b h = absurd (ground arith)
or_false false b h = h

row_parts :
    (row id empty own : Bool)
    → not row ≡ false
    → (row && not id) ≡ false
    → (row && not empty && not own) ≡ false
    → (row ≡ true) × (id ≡ true) × ((own ≡ true) ⊎ (empty ≡ true))
row_parts false id empty own a b c = absurd (ground arith)
row_parts true false empty own a b c = absurd (ground arith)
row_parts true true true own a b c = (refl, refl, inr refl)
row_parts true true false true a b c = (refl, refl, inl refl)
row_parts true true false false a b c = absurd (ground arith)

module _ (js : Js) where
  open js use {Num, to_lower}

  repeats-zero :
      (seen ids : List String)
      → repeats js seen ids ≡ 0
      → IsNodup ids × All (λ id. contains seen id ≡ false) ids
  unfolding repeats IsNodup contains
  repeats-zero seen [] h = (tt, tt)
  repeats-zero seen (id ∷ ids) h = elim (Bool-cases (contains seen id)) [
    | inl e ↦ absurd (ground (arith, rw (e, repeats) at h))
    | inr e ↦
        let (n, a) = repeats-zero (id ∷ seen) ids (rw (e, repeats) at h) in
        (
          (contains-fresh id seen ids a, n),
          (
            e,
            All-map (λ j. contains (id ∷ seen) j ≡ false) (λ j. contains seen j ≡ false)
                (λ j. or_false (id == j) (contains seen j)) ids a,
          ),
        )
  ]

  -- The row is an object with an id, and it is the organisation's, or its table has no owner.
  abbrev pub IsSound : String → TableKey → Value Num → Type 0
  IsSound header key row =
      (is_row row ≡ true)
      × (is_id (get row (spec_of key).pk) ≡ true)
      × ((is_own js (some header) (get row "organisationid") ≡ true)
          ⊎ (((spec_of key).kind ≢ owned) × (is_void (get row "organisationid") ≡ true)))

  sound_row :
      (header : String) (kind : TableKind) (pk : String) (row : Value Num)
      → not (is_row row) ≡ false
      → (is_row row && not (is_id (get row pk))) ≡ false
      → is_foreign js (some header) row ≡ false
      → is_ownerless js kind row ≡ false
      → (is_row row ≡ true)
        × (is_id (get row pk) ≡ true)
        × ((is_own js (some header) (get row "organisationid") ≡ true)
            ⊎ ((kind ≢ owned) × (is_void (get row "organisationid") ≡ true)))
  sound_row header kind pk row a b c d =
      let (there, has, whose) =
        row_parts (is_row row) (is_id (get row pk)) (is_void (get row "organisationid"))
          (is_own js (some header) (get row "organisationid")) a b c in
      (
        there,
        has,
        elim whose [
          | inl own ↦ inl own
          | inr ownerless ↦ inr (
            (λ e.
                let f : is_ownerless js owned row ≡ false =
                  subst (λ k. is_ownerless js k row ≡ false) e d in
                ground (arith, rw (there, ownerless) at f)),
            ownerless,
          )
        ],
      )

  pub shape-IsSound :
      (header : String) (key : TableKey) (rows : List (Value Num))
      → shape_problems js (some header) key rows ≡ []
      → All (IsSound header key) rows × IsNodup (ids_in js (spec_of key).pk rows)
  unfolding shape_problems
  shape-IsSound header key rows h =
      let (h4, e) = append-nil _ _ h in
      let (h3, d) = append-nil _ _ h4 in
      let (h2, c) = append-nil _ _ h3 in
      let (a, b) = append-nil _ _ h2 in
      (
        sound_rows rows (count-zero _ rows (counted-nil _ _ _ a))
            (count-zero _ rows (counted-nil _ _ _ b)) (count-zero _ rows (counted-nil _ _ _ d))
            (count-zero _ rows (counted-nil _ _ _ e)),
        (repeats-zero [] (ids_in js (spec_of key).pk rows) (counted-nil _ _ _ c)).0,
      )
    where
      sound_rows :
          (xs : List (Value Num))
          → All (λ row. not (is_row row) ≡ false) xs
          → All (λ row. (is_row row && not (is_id (get row (spec_of key).pk))) ≡ false) xs
          → All (λ row. is_foreign js (some header) row ≡ false) xs
          → All (λ row. is_ownerless js (spec_of key).kind row ≡ false) xs
          → All (IsSound header key) xs
      sound_rows [] p q r s = tt
      sound_rows (x ∷ xs) p q r s = (
        sound_row header (spec_of key).kind (spec_of key).pk x p.0 q.0 r.0 s.0,
        sound_rows xs p.1 q.1 r.1 s.1,
      )

module _ (js : Js) where
  open js use {Num, to_lower}

  abbrev is_missing : List String → Value Num → Bool
  is_missing targets v = elim v [ str id ↦ not (contains targets (to_lower id)) | _ ↦ true ]

  names_text :
      (targets : List String) (v : Value Num)
      → is_missing targets v ≡ false
      → (id : String) × (v ≡ str id) × (contains targets (to_lower id) ≡ true)
  names_text targets (str id) h = (id, refl, ground arith)
  names_text targets undefined h = absurd (ground arith)
  names_text targets null h = absurd (ground arith)
  names_text targets (bool b) h = absurd (ground arith)
  names_text targets (num n) h = absurd (ground arith)
  names_text targets (arr vs) h = absurd (ground arith)
  names_text targets (obj fs) h = absurd (ground arith)

  dangles-names :
      (ref : Reference) (targets : List String) (row : Value Num)
      → is_row row ≡ true
      → dangles js ref targets row ≡ false
      → ((ref.is_optional ≡ true) × (is_void (get row ref.fk) ≡ true))
        ⊎ ((id : String) × (get row ref.fk ≡ str id) × (contains targets (to_lower id) ≡ true))
  dangles-names ref targets row there h = elim (Bool-cases (is_void (get row ref.fk))) [
    | inl e ↦ inl (ground (arith, rw (there, e) at h), e)
    | inr e ↦ inr (names_text targets (get row ref.fk) (rw (there, e) at h))
  ]

module _ (js : Js) (tests : Tests js.Num) where
  open js use {Num, to_lower}

  -- The column names a row of its table, or it may be empty and is.
  abbrev pub NamesRow : Value Num → Reference → Value Num → Type 0
  NamesRow body ref row =
      ((ref.is_optional ≡ true) × (is_void (get row ref.fk) ≡ true))
      ⊎ ((id : String) × (get row ref.fk ≡ str id)
          × (contains (ids_in js (spec_of ref.to).pk (table_rows js tests body ref.to))
                (to_lower id)
              ≡ true))

  pub reference-NamesRow :
      (body : Value Num) (key : TableKey) (rows targets : List (Value Num)) (is_parent : Bool)
      (ref : Reference)
      → rows_of body ref.to ≡ some targets
      → All (λ row. is_row row ≡ true) rows
      → reference_problems js body key rows is_parent ref ≡ []
      → All (NamesRow body ref) rows
  unfolding reference_problems ids_of
  reference-NamesRow body key rows targets is_parent ref e there h =
      let none_dangle =
        count-zero (dangles js ref (ids_in js (spec_of ref.to).pk targets)) rows
          (counted-nil _ _ _ (rw (e, reference_problems, ids_of) at h)) in
      named rows there none_dangle
    where
      named :
          (xs : List (Value Num))
          → All (λ row. is_row row ≡ true) xs
          → All (λ row. dangles js ref (ids_in js (spec_of ref.to).pk targets) row ≡ false) xs
          → All (NamesRow body ref) xs
      named [] p q = tt
      named (x ∷ xs) p q = (
        rw e (dangles-names js ref (ids_in js (spec_of ref.to).pk targets) x p.0 q.0),
        named xs p.1 q.1,
      )
