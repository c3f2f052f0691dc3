-- ===== src/Score/Pass.antt =====
-- The pass mark of src/business/quizscore.ts and src/business/practicescore.ts.
use native.Mathlib.Nat.{le-div_iff_mul-le, div-mul-le_self}
use edtech_lms_rpi_api.Prelude.{
  ℕ, zero, suc, ◌+◌, ◌*◌, ◌/◌, ◌≤◌, ◌<◌, ◌≡◌, refl, ◌↔◌, true, false, arith,
}
use edtech_lms_rpi_api.Score.{percent, quiz_pass_result, practice_pass_result}

percent-ge_iff :
    (marks activecount : ℕ)
    → 0 < activecount
    → activecount < 4000
    → (8000 ≤ percent marks activecount) ↔ (4 * activecount ≤ 5 * marks)
unfolding percent
percent-ge_iff marks activecount pos small =
    let (to, from) =
      le-div_iff_mul-le {k = 2 * activecount} {x = 8000} {y = 20000 * marks + activecount}
        (omega arith) in
    (λ h. let k = to (omega arith) in omega arith, λ h. let k = from (omega arith) in omega arith)

percent_mono :
    (marks more activecount : ℕ)
    → marks ≤ more
    → percent marks activecount ≤ percent more activecount
unfolding percent
percent_mono marks more zero h = omega arith
percent_mono marks more (suc n) h =
    let k = 2 * suc n in
    let below = div-mul-le_self (20000 * marks + suc n) k in
    let step : (20000 * marks + suc n) / k ≤ (20000 * more + suc n) / k =
      (le-div_iff_mul-le {k = k} (omega arith)).1 (omega arith) in
    omega arith

-- With between 1 and 3999 active questions an attempt passes, as a quiz and as a practice, exactly
-- when at least four fifths of the questions are answered right; rounding never decides.
pub ispass_iff :
    (marks activecount : ℕ)
    → 0 < activecount
    → activecount < 4000
    → ((quiz_pass_result marks activecount).ispass ≡ true ↔ (4 * activecount ≤ 5 * marks))
      × ((practice_pass_result marks activecount).ispass ≡ true ↔ (4 * activecount ≤ 5 * marks))
unfolding quiz_pass_result practice_pass_result
ispass_iff marks activecount pos small =
    let (to, from) = percent-ge_iff marks activecount pos small in
    (
      (λ h. to (ground arith), λ h. ground (arith, from h)),
      (λ h. to (ground arith), λ h. ground (arith, from h)),
    )

-- An attempt at a quiz with no active question does not pass, and one at such a practice does;
-- with an active question the two give one result, with a percentage of at most 100.
pass_results :
    (marks activecount : ℕ)
    → 0 < activecount
    → ((quiz_pass_result marks 0).ispass ≡ false)
      × ((practice_pass_result marks 0).ispass ≡ true)
      × (quiz_pass_result marks activecount ≡ practice_pass_result marks activecount)
      × ((quiz_pass_result marks activecount).percentage ≤ 10000)
unfolding quiz_pass_result practice_pass_result percent
pass_results marks activecount h = (refl, refl, ground arith, ground arith)

-- More right answers never lower the percentage, and never take a pass away.
ispass_mono :
    (marks more activecount : ℕ)
    → marks ≤ more
    → (quiz_pass_result marks activecount).ispass ≡ true
    → ((quiz_pass_result marks activecount).percentage
        ≤ (quiz_pass_result more activecount).percentage)
      × ((quiz_pass_result more activecount).ispass ≡ true)
unfolding quiz_pass_result
ispass_mono marks more activecount h k = (
  ground (arith, percent_mono marks more activecount h),
  ground (arith, percent_mono marks more activecount h),
)
