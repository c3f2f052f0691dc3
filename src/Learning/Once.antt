-- ===== src/Learning/Once.antt =====
-- How often a learning item is paid (src/business/lesson.business.ts).
use edtech_lms_rpi_api.Prelude.{
  ℕ, ◌+◌, ◌≡◌, ◌⊎◌, refl, inl, inr, true, false, ◌&&◌, ◌||◌, Option, none, some, List, [], ◌∷◌,
  String, if◌then◌else◌, eqb, ltb, any, arith, pos_part, Bool-cases,
}
use edtech_lms_rpi_api.Rewards.{reward_delta}
use edtech_lms_rpi_api.Learning.{
  LearningRow, LearningItem, Report, created_row, changed_row, next_row, reward_of,
}

-- The points that a reward adds.
abbrev paid_by : LearningItem → Option (Option ℕ) → ℕ
paid_by item none = 0
paid_by item (some old) = pos_part (reward_delta item.points old)

-- What a sequence of reports on one item pays, from the learner's row of the item.
unfoldable pub paid : String → LearningItem → Option LearningRow → List Report → ℕ
unfolding reward_of created_row changed_row
paid studentid item row [] = 0
paid studentid item row (report ∷ reports) =
    paid_by item (reward_of studentid item report row)
    + paid studentid item (some (next_row studentid item report row)) reports

-- A row that was seen has the item's points; it stays so, and a report on it gives no reward.
seen_step :
    (studentid : String) (item : LearningItem) (row : LearningRow) (report : Report)
    → ltb 0 row.viewed ≡ true
    → row.points ≡ some item.points
    → (reward_of studentid item report (some row) ≡ none)
      × (ltb 0 (changed_row item report row).viewed ≡ true)
      × ((changed_row item report row).points ≡ some item.points)
unfolding reward_of changed_row
seen_step studentid item row report v e =
    let alike : eqb item.points item.points ≡ true = ground arith in
    elim (Bool-cases report.ended) [
      | inl ended ↦
          let later : eqb (row.viewed + 1) 1 ≡ false = ground arith in
          (
            rw (e, reward_of) (rw (v, alike, ended) (rw later refl)),
            rw ended (ground arith),
            rw v refl,
          )
      | inr not_ended ↦
          let other : (eqb (row.viewed + 0) 1 && false) ≡ false = ground arith in
          (
            rw (e, reward_of) (rw (v, alike, not_ended) (rw other refl)),
            rw not_ended (ground arith),
            rw v refl,
          )
    ]

paid-seen :
    (studentid : String) (item : LearningItem) (row : LearningRow) (reports : List Report)
    → ltb 0 row.viewed ≡ true
    → row.points ≡ some item.points
    → paid studentid item (some row) reports ≡ 0
unfolding paid
paid-seen studentid item row [] v e = refl
paid-seen studentid item row (report ∷ reports) v e =
    let (none_given, w, f) = seen_step studentid item row report v e in
    rw none_given
      (omega (arith, paid-seen studentid item (changed_row item report row) reports w f))

-- The learner has no row of the item, or one that was not seen and has no points (NULL or 0).
abbrev pub IsUnseen : Option LearningRow → Type 0
IsUnseen none = Unit
IsUnseen (some row) = (row.viewed ≡ 0) × ((row.points ≡ none) ⊎ (row.points ≡ some 0))

pays :
    (studentid : String) (item : LearningItem) (row : Option LearningRow) (report : Report)
    → IsUnseen row
    → report.ended ≡ true
    → (paid_by item (reward_of studentid item report row) ≡ item.points)
      × (ltb 0 (next_row studentid item report row).viewed ≡ true)
      × ((next_row studentid item report row).points ≡ some item.points)
unfolding reward_of created_row changed_row
pays studentid item none report h ended = (rw (ended, reward_of) refl, rw ended refl, rw ended refl)
pays studentid item (some row) report h ended = elim h.1 [
  | inl null ↦ (
    rw (null, reward_of) (ground (arith, h.0, ended)),
    rw (h.0, ended) refl,
    rw (h.0, ended) refl,
  )
  | inr nothing ↦ elim (Bool-cases (eqb 0 item.points)) [
    | inl free ↦ (
      rw (nothing, reward_of) (rw (h.0, ended) (rw free (rw (h.0, ended) refl))),
      rw (h.0, ended) refl,
      rw (h.0, ended) refl,
    )
    | inr worth ↦ (
      rw (nothing, reward_of) (rw (h.0, ended) (rw worth refl)),
      rw (h.0, ended) refl,
      rw (h.0, ended) refl,
    )
  ]
]

next_row-IsUnseen :
    (studentid : String) (item : LearningItem) (row : Option LearningRow) (report : Report)
    → IsUnseen row
    → report.ended ≡ false
    → (reward_of studentid item report row ≡ none)
      × IsUnseen (some (next_row studentid item report row))
unfolding reward_of created_row changed_row
next_row-IsUnseen studentid item none report h other =
    (rw (other, reward_of) refl, (rw other refl, inr (rw other refl)))
next_row-IsUnseen studentid item (some row) report h other =
    let later : IsUnseen (some (next_row studentid item report (some row))) =
      (rw (h.0, other) (omega arith), inr (rw (h.0, other) refl)) in
    elim h.1 [
      | inl null ↦ (rw (null, reward_of) (ground (arith, h.0, other)), later)
      | inr nothing ↦ (rw (nothing, reward_of) (rw (h.0, other) (rw (h.0, other) refl)), later)
    ]

-- However often, and in whatever order, a learner's client reports on a learning item that the learner
-- has not finished before, the item's points are paid once when one of the reports says that it ended,
-- and nothing is paid otherwise; while the item's points stay the same.
pub paid_once :
    (studentid : String) (item : LearningItem) (row : Option LearningRow) (reports : List Report)
    → IsUnseen row
    → paid studentid item row reports ≡ (if any (λ r. r.ended) reports then item.points else 0)
unfolding paid
paid_once studentid item row [] h = refl
paid_once studentid item row (report ∷ reports) h = elim (Bool-cases report.ended) [
  | inl ended ↦
      let (now, seen, full) = pays studentid item row report h ended in
      let later = paid-seen studentid item (next_row studentid item report row) reports seen full in
      let whole : (if report.ended || any (λ r. r.ended) reports then item.points else 0)
          ≡ item.points =
        rw ended refl in
      omega (arith, now, later, whole)
  | inr other ↦
      let (none_given, unseen) = next_row-IsUnseen studentid item row report h other in
      let later =
        paid_once studentid item (some (next_row studentid item report row)) reports unseen in
      let whole : (if report.ended || any (λ r. r.ended) reports then item.points else 0)
          ≡ (if any (λ r. r.ended) reports then item.points else 0) =
        rw other refl in
      let nothing : paid_by item (reward_of studentid item report row) ≡ 0 = rw none_given refl in
      omega (arith, nothing, later, whole)
]
