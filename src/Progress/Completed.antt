-- ===== src/Progress/Completed.antt =====
-- When a lesson and a level are complete (src/business/progress-rules.ts).
use native.Mathlib.Nat.{le-div_iff_mul-le}
use edtech_lms_rpi_api.Prelude.{
  ℕ, ◌/◌, eqb, leb, leb→le, le→leb, ◌+◌, ◌*◌, ◌≤◌, ◌<◌, ◌≡◌, ◌↔◌, refl, true, false, none, some,
  arith,
}
use edtech_lms_rpi_api.Progress.{lesson_pass_mark, reaches, progress_percent, percent_completed}

at_least_iff :
    (points total : ℕ)
    → 0 < total
    → total < 4000
    → (leb 8000 ((20000 * points + total) / (2 * total)) ≡ true) ↔ (4 * total ≤ 5 * points)
at_least_iff points total h k =
    let (to, from) =
      le-div_iff_mul-le {k = 2 * total} {x = 8000} {y = 20000 * points + total} (omega arith) in
    (λ e. let le = to (leb→le _ _ e) in omega arith, λ le. le→leb _ _ (from (omega arith)))

-- With a total between 1 and 3999 and no pass mark of its own, a lesson is complete exactly from four
-- fifths of its total on, and a level or grade with that total from the same points on: the rounded
-- percentage and the rounded mark agree. With neither a total nor a mark a lesson is never complete.
pub completed_iff :
    (points total : ℕ)
    → 0 < total
    → total < 4000
    → ((reaches points
            (lesson_pass_mark (record { passing_points = none; total_points = some total }))
          ≡ true)
        ↔ (4 * total ≤ 5 * points))
      × ((percent_completed (progress_percent points total) ≡ true) ↔ (4 * total ≤ 5 * points))
      × (reaches points (lesson_pass_mark (record { passing_points = none; total_points = none }))
          ≡ false)
unfolding lesson_pass_mark progress_percent percent_completed
completed_iff points total h k =
    let there : eqb total 0 ≡ false = ground arith in
    (
      (λ e. ground arith, λ e. ground arith),
      rw (there, progress_percent) (at_least_iff points total h k),
      refl,
    )
