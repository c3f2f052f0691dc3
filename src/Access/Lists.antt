-- ===== src/Access/Lists.antt =====
-- The levels that a caller is shown can be opened (src/business/content-access.ts).
use edtech_lms_rpi_api.Prelude.{
  ◌≡◌, refl, inl, inr, true, false, Option, none, some, List, [], ◌∷◌, map, String, ◌==◌, eq_iff,
  arith, contains, ==_self, Option-cases, Bool-cases,
}
use edtech_lms_rpi_api.Js.{Js}
use edtech_lms_rpi_api.Access.{
  level, Token, Caller, ContentDb, column, usable, present, is_nil, caller_of, lowered, is_on,
  status_of, grade_of, curriculum_of_level, curricula_of, curriculum_ids_of,
}
use edtech_lms_rpi_api.Access.Visible.{
  curriculum_ids_in_scope, can_access_content, grade_ids_in_scope, level_ids_in_scope,
}

contains-map_of :
    (f : String → String) (xs : List String) (x : String)
    → contains xs x ≡ true
    → contains (map f xs) (f x) ≡ true
unfolding contains
contains-map_of f [] x h = ground arith
contains-map_of f (y ∷ xs) x h = elim (Bool-cases (y == x)) [
  | inl same ↦ rw ((eq_iff y x).0 same) (ground (arith, ==_self (f x)))
  | inr other ↦ let rest = contains-map_of f xs x (ground arith) in ground arith
]

contains-is_nil : (xs : List String) (x : String) → contains xs x ≡ true → is_nil xs ≡ false
unfolding contains
contains-is_nil [] x h = ground arith
contains-is_nil (y ∷ xs) x h = refl

module _ (js : Js) (db : ContentDb js.Num) where
  -- What the queries for lists promise. A level that is listed has an id of at most 64 characters,
  -- is switched on, and its grade is, in lower case, one of those asked for; so is the curriculum of
  -- a grade that is listed, and of its id in any case.
  pub record IsListQuery : Type 0 where
    pub levels_are_live :
        (gradeids : List String) (l : String)
        → contains (present (map column (db.live_levels_of gradeids))) l ≡ true
        → (usable (some l) ≡ some l) × (is_on js (status_of js db l) ≡ true)
    pub levels_are_of :
        (gradeids : List String) (l : String)
        → contains (present (map column (db.live_levels_of gradeids))) l ≡ true
        → (g : String) × (grade_of js db l ≡ some g)
          × ((g' : String) × (contains gradeids g' ≡ true) × (js.to_lower g' ≡ js.to_lower g))
    pub grades_are_of :
        (curriculumids : List String) (g g' : String)
        → contains (present (map column (db.grades_of curriculumids))) g' ≡ true
        → js.to_lower g' ≡ js.to_lower g
        → (c : String) × (column (db.grade_row g) ≡ some c)
          × ((v : String) × (contains curriculumids v ≡ true) × (js.to_lower v ≡ js.to_lower c))

  level-curricula :
      (l g c : String)
      → usable (some l) ≡ some l
      → is_on js (status_of js db l) ≡ true
      → grade_of js db l ≡ some g
      → column (db.grade_row g) ≡ some c
      → curriculum_ids_of js db true level (some l) ≡ c ∷ []
  unfolding curriculum_ids_of curricula_of curriculum_of_level
  level-curricula l g c fits on of_grade of_curriculum =
      rw (fits, curriculum_ids_of)
        (rw (on, curriculum_of_level) (rw of_grade (rw of_curriculum refl)))

  level-accessible :
      (user : Option Token) (caller : Caller) (l c v : String)
      → caller_of user ≡ some caller
      → curriculum_ids_of js db true level (some l) ≡ c ∷ []
      → contains (curriculum_ids_in_scope js db user) v ≡ true
      → js.to_lower v ≡ js.to_lower c
      → can_access_content js db user level (some l) ≡ true
  unfolding can_access_content contains
  level-accessible user caller l c v e own inside same =
      let seen : contains (lowered js (curriculum_ids_in_scope js db user)) (js.to_lower c) ≡ true =
        rw (← same) (contains-map_of (λ x. js.to_lower x) _ v inside) in
      let some_seen =
        contains-is_nil (lowered js (curriculum_ids_in_scope js db user)) (js.to_lower c) seen in
      rw (e, can_access_content) (rw own (ground (arith, seen, some_seen)))

  in_scope-none :
      (user : Option Token) → caller_of user ≡ none → curriculum_ids_in_scope js db user ≡ []
  unfolding curriculum_ids_in_scope
  in_scope-none user gone = rw (gone, curriculum_ids_in_scope) refl

  -- A level in the list of a caller's levels can be opened by the caller by its id, if the queries
  -- for lists return what they are asked for.
  pub can_access_content-listed :
      (q : IsListQuery) (user : Option Token) (l : String)
      → contains (level_ids_in_scope js db user) l ≡ true
      → can_access_content js db user level (some l) ≡ true
  unfolding level_ids_in_scope grade_ids_in_scope contains
  can_access_content-listed q user l h = elim (Option-cases (caller_of user)) [
    | inl gone ↦ absurd (ground (arith, in_scope-none user gone))
    | inr (caller, e) ↦
        let listed : contains
              (present (map column (db.live_levels_of (grade_ids_in_scope js db user)))) l
            ≡ true =
          ground arith in
        let (fits, on) = q.levels_are_live _ l listed in
        let (g, of_grade, (g', asked, alike)) = q.levels_are_of _ l listed in
        let graded : contains
              (present (map column (db.grades_of (curriculum_ids_in_scope js db user)))) g'
            ≡ true =
          ground arith in
        let (c, of_curriculum, (v, inside, same)) = q.grades_are_of _ g g' graded alike in
        level-accessible user caller l c v e (level-curricula l g c fits on of_grade of_curriculum)
          inside same
  ]
