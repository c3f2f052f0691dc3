-- ===== src/Access/Requests/Named.antt =====
-- What the filters of an accepted report may name (src/business/report-scope.ts).
use edtech_lms_rpi_api.Prelude.{
  ℕ, zero, suc, ◌≡◌, refl, ap, inl, inr, Bool, true, false, not, ◌||◌, &&-eq-true, Option, none,
  some, List, [], ◌∷◌, String, ◌==◌, eq_iff, arith, every, get_elem?, contains, Bool-cases,
  Option-cases,
}
use edtech_lms_rpi_api.Prelude.Text.{is_empty}
use edtech_lms_rpi_api.Js.{Value, undefined, null, bool, num, str, arr, obj, Js}
use edtech_lms_rpi_api.Access.{ContentKind, ContentDb, column, lowered, curriculum_ids_of}
use edtech_lms_rpi_api.Access.Visible.{curricula_in_scope}
use edtech_lms_rpi_api.Access.Requests.{ReportScope}
use edtech_lms_rpi_api.Access.Requests.Filters.{
  MultiFilter, LearnerRow, FilterDb, filter_kinds, listed, is_truthy, is_mine, is_own_login,
  is_learner_in_scope, content_in_scope, ids_in_scope, kind_of_key, has_key, filter_in_scope,
  filters_in_scope, content_filters_in_scope,
}

every-contains :
    (p : String → Bool) (xs : List String) (x : String)
    → every p xs ≡ true
    → contains xs x ≡ true
    → p x ≡ true
unfolding contains
every-contains p [] x h k = ground arith
every-contains p (y ∷ xs) x h k = elim (Bool-cases (y == x)) [
  | inl same ↦ rw (← (eq_iff y x).0 same) (&&-eq-true (p y) _ h).0
  | inr other ↦ every-contains p xs x (&&-eq-true (p y) _ h).1 (ground arith)
]

-- The key of a filter of content is none of the two others.
content_key-other :
    (key : Option String) (name : String) (kind : ContentKind)
    → kind_of_key key ≡ some kind
    → filter_kinds name ≡ none
    → has_key name key ≡ false
content_key-other none name kind h k = refl
content_key-other (some key) name kind h k = elim (Bool-cases (key == name)) [
  | inl same ↦ absurd (ground (arith, h, k, ap filter_kinds ((eq_iff key name).0 same)))
  | inr other ↦ other
]

standard-other : filter_kinds "standard" ≡ none
unfolding filter_kinds
standard-other = refl

studentid-other : filter_kinds "studentid" ≡ none
unfolding filter_kinds
studentid-other = refl

module _ (js : Js) (db : ContentDb js.Num) (rows : FilterDb) where
  filters-at :
      (scope : ReportScope) (filters : List (MultiFilter js.Num)) (i : ℕ) (f : MultiFilter js.Num)
      → filters_in_scope js db rows scope filters ≡ true
      → get_elem? filters i ≡ some f
      → filter_in_scope js db rows scope f ≡ true
  filters-at scope [] i f h e = ground arith
  filters-at scope (g ∷ filters) i f h e = elim (Bool-cases (filter_in_scope js db rows scope g)) [
    | inr bad ↦ absurd (ground (arith, rw bad at h))
    | inl good ↦ later i e (rw good at h) good (filters-at scope filters)
  ]
    where
      later :
          (i : ℕ)
          → get_elem? (g ∷ filters) i ≡ some f
          → filters_in_scope js db rows scope filters ≡ true
          → filter_in_scope js db rows scope g ≡ true
          → ((i : ℕ) (f : MultiFilter js.Num)
              → filters_in_scope js db rows scope filters ≡ true
              → get_elem? filters i ≡ some f
              → filter_in_scope js db rows scope f ≡ true)
          → filter_in_scope js db rows scope f ≡ true
      later zero e rest good ih = let same : g ≡ f = cc in rw (← same) good
      later (suc i) e rest good ih = ih i f rest e

  ids-at :
      (scope : ReportScope) (kind : ContentKind) (vs : List (Value js.Num)) (i : ℕ) (id : String)
      → ids_in_scope js db rows scope kind vs ≡ true
      → get_elem? vs i ≡ some (str id)
      → is_empty id ≡ false
      → content_in_scope js db rows scope kind id ≡ true
  ids-at scope kind [] i id h e filled = ground arith
  ids-at scope kind (str s ∷ vs) zero id h e filled =
      let same : s ≡ id = ground arith in
      let here = (&&-eq-true (is_empty s || content_in_scope js db rows scope kind s) _ h).0 in
      rw (filled, ◌||◌) at (rw same at here)
  ids-at scope kind (str s ∷ vs) (suc i) id h e filled =
      ids-at scope kind vs i id
        (&&-eq-true (is_empty s || content_in_scope js db rows scope kind s) _ h).1 e filled
  ids-at scope kind (undefined ∷ vs) zero id h e filled = ground arith
  ids-at scope kind (undefined ∷ vs) (suc i) id h e filled = ids-at scope kind vs i id h e filled
  ids-at scope kind (null ∷ vs) zero id h e filled = ground arith
  ids-at scope kind (null ∷ vs) (suc i) id h e filled = ids-at scope kind vs i id h e filled
  ids-at scope kind (bool b ∷ vs) i id h e filled = ground arith
  ids-at scope kind (num n ∷ vs) i id h e filled = ground arith
  ids-at scope kind (arr a ∷ vs) i id h e filled = ground arith
  ids-at scope kind (obj o ∷ vs) i id h e filled = ground arith

  -- In a report that is accepted under a scope, each id of a curriculum, grade, level or lesson that
  -- a filter names has only curricula that are, in lower case, in the scope.
  pub content_filters_in_scope_sound :
      (scope : ReportScope) (filters : List (MultiFilter js.Num)) (i j : ℕ) (f : MultiFilter js.Num)
      (kind : ContentKind) (id c : String)
      → content_filters_in_scope js db rows (some scope) filters ≡ true
      → get_elem? filters i ≡ some f
      → kind_of_key f.key ≡ some kind
      → is_truthy js db rows f.value ≡ true
      → get_elem? (listed f.value) j ≡ some (str id)
      → is_empty id ≡ false
      → contains (curriculum_ids_of js db false kind (some id)) c ≡ true
      → contains
          (lowered js (
            curricula_in_scope js db scope.organisationid scope.curriculumids
              (curriculum_ids_of js db false kind (some id))))
          (js.to_lower c)
        ≡ true
  unfolding content_filters_in_scope filter_in_scope content_in_scope
  content_filters_in_scope_sound scope filters i j f kind id c h at_i of_kind taken at_j filled
        own =
      let good = filters-at scope filters i f h at_i in
      let no_class = content_key-other f.key "standard" kind of_kind standard-other in
      let no_learner = content_key-other f.key "studentid" kind of_kind studentid-other in
      let ids =
        rw (taken, filter_in_scope) at
          (rw (of_kind, filter_in_scope) at
            (rw (no_learner, filter_in_scope) at (rw (no_class, filter_in_scope) at good))) in
      every-contains _ (curriculum_ids_of js db false kind (some id)) c
        (ids-at scope kind (listed f.value) j id ids at_j filled) own

  learner-row :
      (scope : ReportScope) (row : LearnerRow)
      → is_learner_in_scope js db rows scope (some row) ≡ true
      → (schoolid : String) × (column row.schoolid ≡ some schoolid)
        × (is_mine js db rows scope schoolid ≡ true)
        × (is_own_login js db rows scope.schooluserid row.schooluserid ≡ true)
  learner-row scope row h = elim (Option-cases (column row.schoolid)) [
    | inl gone ↦ absurd (ground (arith, rw (gone, is_learner_in_scope) at h))
    | inr (s, e) ↦
        let (mine, login) =
          &&-eq-true (is_mine js db rows scope s) _ (rw (e, is_learner_in_scope) at h) in
        (s, e, mine, login)
  ]

  -- In a report that is accepted under a scope, the stored learner whom a filter names is of one of
  -- the scope's schools, and has the scope's login if the scope has one, all in lower case.
  pub content_filters_in_scope_learner :
      (scope : ReportScope) (filters : List (MultiFilter js.Num)) (i : ℕ) (f : MultiFilter js.Num)
      (id : String) (row : LearnerRow)
      → content_filters_in_scope js db rows (some scope) filters ≡ true
      → get_elem? filters i ≡ some f
      → f.key ≡ some "studentid"
      → f.value ≡ str id
      → is_empty id ≡ false
      → rows.learner_row id ≡ some row
      → (schoolid : String) × (column row.schoolid ≡ some schoolid)
        × (is_mine js db rows scope schoolid ≡ true)
        × (is_own_login js db rows scope.schooluserid row.schooluserid ≡ true)
  unfolding content_filters_in_scope filter_in_scope
  content_filters_in_scope_learner scope filters i f id row h at_i key value filled found =
      let good = filters-at scope filters i f h at_i in
      let taken =
        rw (filled, not) at (rw (value, filter_in_scope) at (rw (key, filter_in_scope) at good)) in
      learner-row scope row (rw found at taken)
