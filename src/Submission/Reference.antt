-- ===== src/Submission/Reference.antt =====
-- The index bookkeeping of `gradeSubmissionItems` (src/business/gradesubmission.ts) keeps the first
-- graded item of each id.
use native.Mathlib.Nat.{add-zero}
use edtech_lms_rpi_api.Prelude.{
  ℕ, suc, ◌+◌, ◌≤◌, ◌≡◌, refl, ◌∙◌, sym, inl, inr, Bool, ◌||◌, none, some, List, [], ◌∷◌, ◌++◌, map,
  String, ◌==◌, if◌then◌else◌, get_elem?, contains, arith, Bool-cases, Option-cases,
}
use mathlib.Core.List.{append-nil, append_assoc}
use edtech_lms_rpi_api.Js.{Js}
use edtech_lms_rpi_api.Submission.{
  Mode, Item, GradedItem, Seen, is_seen, insert_index, sort_indexes, pick, Questions, grade_item,
  first_seen, grade_submission_items,
}

module _ {N : Type 0} where
  -- The reference: walk the graded items and keep each whose id is given and new.
  unfoldable pub first_per_id : List String → List (GradedItem N) → List (GradedItem N)
  first_per_id done [] = []
  first_per_id done (g ∷ graded) = elim g.raw.id [
    | none ↦ first_per_id done graded
    | some id ↦
        let skipped = first_per_id done graded in
        let kept = g ∷ first_per_id (id ∷ done) graded in if contains done id then skipped else kept
  ]

or-contains :
    (a id : String) (done : List String) (b : Bool)
    → b ≡ contains done a
    → (b || id == a) ≡ contains (id ∷ done) a
unfolding contains
or-contains a id done b h = ground arith

-- The entries that `first_seen` adds.
unfoldable pub added : {N : Type 0} → ℕ → Seen → List (Item N) → Seen
added index seen [] = []
added index seen (raw ∷ items) = elim raw.id [
  | none ↦ added (index + 1) seen items
  | some id ↦
      let skipped = added (index + 1) seen items in
      let kept = (id, index) ∷ added (index + 1) (seen ++ (id, index) ∷ []) items in
      if is_seen id seen then skipped else kept
]

pub is_seen-append :
    (a id : String) (index : ℕ) (seen : Seen)
    → is_seen a (seen ++ (id, index) ∷ []) ≡ (is_seen a seen || id == a)
unfolding is_seen
is_seen-append a id index [] = ground arith
is_seen-append a id index ((k, j) ∷ seen) = ground (arith, is_seen-append a id index seen)

abbrev IsAscending : ℕ → List ℕ → Type 0
IsAscending low [] = Unit
IsAscending low (i ∷ is) = (low ≤ i) × IsAscending i is

IsAscending-le :
    (low high : ℕ) (is : List ℕ) → low ≤ high → IsAscending high is → IsAscending low is
IsAscending-le low high [] h k = tt
IsAscending-le low high (i ∷ is) h k = (omega arith, k.1)

insert_index-eq : (i : ℕ) (is : List ℕ) → IsAscending i is → insert_index i is ≡ i ∷ is
unfolding insert_index
insert_index-eq i [] h = refl
insert_index-eq i (j ∷ is) h = ground arith

sort_indexes-eq : (low : ℕ) (is : List ℕ) → IsAscending low is → sort_indexes is ≡ is
unfolding sort_indexes
sort_indexes-eq low [] h = refl
sort_indexes-eq low (i ∷ is) h = rw (sort_indexes-eq i is h.1) (insert_index-eq i is h.1)

abbrev indexes : Seen → List ℕ
indexes = map (λ e. e.1)

nothing_seen : (a : String) → is_seen a [] ≡ contains [] a
unfolding is_seen contains
nothing_seen a = refl

module _ (js : Js) where
  open js use {Num}

  pub first_seen-eq :
      (index : ℕ) (seen : Seen) (items : List (Item Num))
      → first_seen js index seen items ≡ seen ++ added index seen items
  unfolding first_seen added
  first_seen-eq index seen [] = sym (append-nil seen)
  first_seen-eq index seen (raw ∷ items) = elim (Option-cases raw.id) [
    | inl gone ↦ ground (arith, first_seen-eq (index + 1) seen items)
    | inr (id, given) ↦ ground (
      arith,
      first_seen-eq (index + 1) seen items,
      first_seen-eq (index + 1) (seen ++ (id, index) ∷ []) items,
      append_assoc seen ((id, index) ∷ []) (added (index + 1) (seen ++ (id, index) ∷ []) items),
    )
  ]

  added-IsAscending :
      (index : ℕ) (seen : Seen) (items : List (Item Num))
      → IsAscending index (indexes (added index seen items))
  unfolding added
  added-IsAscending index seen [] = tt
  added-IsAscending index seen (raw ∷ items) = elim (Option-cases raw.id) [
    | inl gone ↦ rw gone (
        IsAscending-le index (index + 1) _ (omega arith) (added-IsAscending (index + 1) seen items))
    | inr (id, given) ↦ elim (Bool-cases (is_seen id seen)) [
      | inl old ↦
          rw (given, old)
            (IsAscending-le index (index + 1) _ (omega arith)
              (added-IsAscending (index + 1) seen items))
      | inr new ↦
          rw (given, new)
            (
              omega arith,
              IsAscending-le index (index + 1) _ (omega arith)
                  (added-IsAscending (index + 1) _ items),
            )
    ]
  ]

  -- `gs` is what is left of the graded list from an index on.
  abbrev pub IsRest : List (GradedItem Num) → ℕ → List (GradedItem Num) → Type 0
  IsRest all index gs = (k : ℕ) → get_elem? all (k + index) ≡ get_elem? gs k

  pub IsRest-suc :
      (all gs : List (GradedItem Num)) (g : GradedItem Num) (index : ℕ)
      → IsRest all index (g ∷ gs)
      → IsRest all (index + 1) gs
  IsRest-suc all gs g index h k =
      let e : k + (index + 1) ≡ suc k + index = omega arith in rw e (h (suc k))

  pub IsRest-here :
      (all gs : List (GradedItem Num)) (g : GradedItem Num) (index : ℕ)
      → IsRest all index (g ∷ gs)
      → get_elem? all index ≡ some g
  IsRest-here all gs g index h = let e : index ≡ 0 + index = omega arith in rw e (h 0)

  pick-added :
      (mode : Mode) (active : Questions js) (all : List (GradedItem Num)) (index : ℕ) (seen : Seen)
      (done : List String) (items : List (Item Num))
      → ((a : String) → is_seen a seen ≡ contains done a)
      → IsRest all index (map (grade_item js mode active) items)
      → pick all (indexes (added index seen items))
        ≡ first_per_id done (map (grade_item js mode active) items)
  unfolding added pick first_per_id grade_item
  pick-added mode active all index seen done [] same rest = refl
  pick-added mode active all index seen done (raw ∷ items) same rest =
      let after = IsRest-suc all _ _ index rest in
      elim (Option-cases raw.id) [
        | inl gone ↦ rw gone (pick-added mode active all (index + 1) seen done items same after)
        | inr (id, given) ↦ elim (Bool-cases (is_seen id seen)) [
          | inl old ↦
              rw (given, old, sym (same id) ∙ old)
                (pick-added mode active all (index + 1) seen done items same after)
          | inr new ↦
              let same' : (a : String)
                  → is_seen a (seen ++ (id, index) ∷ []) ≡ contains (id ∷ done) a =
                λ a. is_seen-append a id index seen ∙ or-contains a id done _ (same a) in
              rw (given, new, sym (same id) ∙ new)
                (ground (
                  arith,
                  IsRest-here all _ _ index rest,
                  pick-added mode active all (index + 1) (seen ++ (id, index) ∷ []) (id ∷ done)
                      items same' after,
                ))
        ]
      ]

  -- The items that a submission is scored by are the graded items that are the first to carry
  -- their id, in the order in which they were submitted.
  pub scoring_items-eq-first_per_id :
      (items : List (Item Num)) (active : Questions js) (mode : Mode)
      → (grade_submission_items js items active mode).scoring_items
        ≡ first_per_id [] (map (grade_item js mode active) items)
  unfolding grade_submission_items
  scoring_items-eq-first_per_id items active mode =
      let all = map (grade_item js mode active) items in
      rw (first_seen-eq 0 [] items) (
        rw (sort_indexes-eq 0 _ (added-IsAscending 0 [] items))
          (pick-added mode active all 0 [] [] items nothing_seen (λ k. rw add-zero)))
