-- ===== src/Submission/Counted.antt =====
-- Which submitted items count for the score (src/business/gradesubmission.ts).
use edtech_lms_rpi_api.Prelude.{
  ◌≡◌, refl, ◌∙◌, inl, inr, true, not, ◌&&◌, ◌||◌, Option, none, some, List, [], ◌∷◌, ◌++◌, map,
  String, eq_iff, arith, contains, IsNodup, All, All-map, ap, Bool-cases, Option-cases, ==_self,
}
use mathlib.Core.List.{map-append}
use edtech_lms_rpi_api.Js.{Js}
use edtech_lms_rpi_api.Submission.{
  Mode, Item, GradedItem, Questions, grade_item, grade_submission_items,
}
use edtech_lms_rpi_api.Submission.Reference.{first_per_id, scoring_items-eq-first_per_id}

-- The ids that submitted items carry, and those that graded items carry.
abbrev pub id_with : Option String → List String → List String
id_with none ids = ids
id_with (some id) ids = id ∷ ids

module _ {N : Type 0} where
  abbrev pub item_ids : List (Item N) → List String
  item_ids [] = []
  item_ids (raw ∷ items) = id_with raw.id (item_ids items)

  abbrev pub graded_ids : List (GradedItem N) → List String
  graded_ids [] = []
  graded_ids (g ∷ graded) = id_with g.raw.id (graded_ids graded)

  -- The item carries no id, or one of the given ones.
  abbrev IsOld : List String → List String → GradedItem N → Type 0
  IsOld done ids g =
      (id : String) → g.raw.id ≡ some id → (contains done id || contains ids id) ≡ true

  abbrev pub IsRepeat : List String → Item N → Type 0
  IsRepeat ids raw = (id : String) → raw.id ≡ some id → contains ids id ≡ true

  first_per_id_old :
      (done : List String) (extra : List (GradedItem N))
      → All (IsOld done []) extra
      → first_per_id done extra ≡ []
  unfolding first_per_id contains
  first_per_id_old done [] h = refl
  first_per_id_old done (g ∷ extra) h = elim (Option-cases g.raw.id) [
    | inl gone ↦ ground (arith, first_per_id_old done extra h.1)
    | inr (id, given) ↦ ground (arith, first_per_id_old done extra h.1, h.0 id)
  ]

  weaken :
      (done done' ids ids' : List String)
      → ((a : String)
          → (contains done a || contains ids a) ≡ true
          → (contains done' a || contains ids' a) ≡ true)
      → (extra : List (GradedItem N)) → All (IsOld done ids) extra
      → All (IsOld done' ids') extra
  weaken done done' ids ids' f =
      All-map (IsOld done ids) (IsOld done' ids') (λ x h a e. f a (h a e))

  first_per_id-append :
      (done : List String) (graded extra : List (GradedItem N))
      → All (IsOld done (graded_ids graded)) extra
      → first_per_id done (graded ++ extra) ≡ first_per_id done graded
  unfolding first_per_id contains
  first_per_id-append done [] extra h = first_per_id_old done extra h
  first_per_id-append done (g ∷ graded) extra h =
      let ids = graded_ids graded in
      elim (Option-cases g.raw.id) [
        | inl gone ↦
            let less = weaken done done _ ids (λ a e. rw (gone, id_with) at e) extra h in
            ground (arith, first_per_id-append done graded extra less)
        | inr (id, given) ↦
            let old_all : All (IsOld done (id ∷ ids)) extra =
              weaken done done _ (id ∷ ids) (λ a e. rw (given, id_with) at e) extra h in
            elim (Bool-cases (contains done id)) [
              | inl old ↦
                  let less =
                    weaken done done (id ∷ ids) ids (λ a e. ground (arith, eq_iff id a)) extra
                      old_all in
                  ground (arith, first_per_id-append done graded extra less)
              | inr new ↦
                  let less =
                    weaken done (id ∷ done) (id ∷ ids) ids (λ a e. ground arith) extra old_all in
                  ground (arith, first_per_id-append (id ∷ done) graded extra less)
            ]
      ]

  -- Each id is kept once, and no id is lost.
  contains-first_per_id :
      (done : List String) (graded : List (GradedItem N)) (a : String)
      → contains (graded_ids (first_per_id done graded)) a
        ≡ (not (contains done a) && contains (graded_ids graded) a)
  unfolding first_per_id contains
  contains-first_per_id done [] a = ground arith
  contains-first_per_id done (g ∷ graded) a = elim (Option-cases g.raw.id) [
    | inl gone ↦ ground (arith, contains-first_per_id done graded a)
    | inr (id, given) ↦ ground (
      arith,
      contains-first_per_id done graded a,
      contains-first_per_id (id ∷ done) graded a,
      eq_iff id a,
    )
  ]

  first_per_id-IsNodup :
      (done : List String) (graded : List (GradedItem N))
      → IsNodup (graded_ids (first_per_id done graded))
  unfolding first_per_id contains IsNodup
  first_per_id-IsNodup done [] = tt
  first_per_id-IsNodup done (g ∷ graded) = elim (Option-cases g.raw.id) [
    | inl gone ↦ rw gone (first_per_id-IsNodup done graded)
    | inr (id, given) ↦ elim (Bool-cases (contains done id)) [
      | inl old ↦ rw (given, old) (first_per_id-IsNodup done graded)
      | inr new ↦
          rw (given, new)
            (rw given (
              contains-first_per_id (id ∷ done) graded id ∙ ground (arith, ==_self id),
              first_per_id-IsNodup (id ∷ done) graded,
            ))
    ]
  ]

module _ (js : Js) (active : Questions js) (mode : Mode) where
  open js use {Num}

  graded_ids-map :
      (items : List (Item Num))
      → graded_ids (map (grade_item js mode active) items) ≡ item_ids items
  unfolding grade_item
  graded_ids-map [] = refl
  graded_ids-map (raw ∷ items) = ap (id_with raw.id) (graded_ids-map items)

  repeats-IsOld :
      (ids : List String) (extra : List (Item Num))
      → All (IsRepeat ids) extra
      → All (IsOld [] ids) (map (grade_item js mode active) extra)
  unfolding grade_item contains
  repeats-IsOld ids [] h = tt
  repeats-IsOld ids (raw ∷ extra) h = (λ id e. h.0 id e, repeats-IsOld ids extra h.1)

  -- Items attached behind a submission that carry no id, or an id that the submission has already,
  -- change nothing of what the submission is scored by.
  pub scoring_items-append :
      (items extra : List (Item Num))
      → All (IsRepeat (item_ids items)) extra
      → (grade_submission_items js (items ++ extra) active mode).scoring_items
        ≡ (grade_submission_items js items active mode).scoring_items
  scoring_items-append items extra h =
      rw
        (
          scoring_items-eq-first_per_id js (items ++ extra) active mode,
          scoring_items-eq-first_per_id js items active mode,
          map-append,
        )
        (first_per_id-append [] _ _
          (rw (graded_ids-map items) (repeats-IsOld (item_ids items) extra h)))

  -- The items that a submission is scored by carry each submitted id, and each of them once.
  pub scoring_items_once :
      (items : List (Item Num))
      → let scoring = (grade_submission_items js items active mode).scoring_items in
        IsNodup (graded_ids scoring)
        × ((id : String) → contains (graded_ids scoring) id ≡ contains (item_ids items) id)
  unfolding contains
  scoring_items_once items =
      rw (scoring_items-eq-first_per_id js items active mode)
        (first_per_id-IsNodup [] _, λ id. contains-first_per_id [] _ id ∙ rw (graded_ids-map items))
