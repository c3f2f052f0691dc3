-- ===== src/Results/Handlers/Resent.antt =====
-- A practice that is submitted twice (src/modules/result/result.controller.ts).
use edtech_lms_rpi_api.Prelude.{ℕ, ◌≡◌, Bool, true, Option, some, find, String, leb, every, filter}
use edtech_lms_rpi_api.Js.{Js}
use edtech_lms_rpi_api.Results.{Store, is_try}
use edtech_lms_rpi_api.Results.Create.{Activity}

-- A query for an activity finds one whose id the database takes for equal to the one wanted.
abbrev pub IsFoundById : (String → String → Bool) → (String → Option Activity) → Type 0
IsFoundById same find =
    (id : String) (activity : Activity) → find id ≡ some activity → same activity.id id ≡ true

-- No stored attempt of the learner at the activity is dated after this time.
abbrev pub is_latest :
    {N : Type 0} → (String → String → Bool) → String → String → ℕ → Store N → Bool
is_latest same studentid reference starttime st =
    every (λ b. leb b.starttime starttime) (filter (is_try same studentid reference) st.attempts)
