-- ===== src/Results/Handlers/Verified.antt =====
-- What a pass rests on when the server grades and an unverified result is no pass
-- (src/modules/result/result.controller.ts).
use mathlib.Core.Path.{subst}
use edtech_lms_rpi_api.Prelude.{
  ℕ, ◌*◌, ◌≤◌, ◌<◌, ◌≡◌, refl, sym, ap, ◌∙◌, inl, inr, Bool, true, false, some, List, [], ◌∷◌, ◌++◌,
  String, any, length, arith, Option-cases, &&-eq-true, ok,
}
use edtech_lms_rpi_api.Js.{Js}
use edtech_lms_rpi_api.Submission.{is_enforce}
use edtech_lms_rpi_api.Progress.{lesson_quiz_attempt_points}
use edtech_lms_rpi_api.Score.{
  Tables, ResultContainer, lessonpractice, lessonquiz, levelquiz, baseline, table_of, result_of,
  questions_of, active_ids,
}
use edtech_lms_rpi_api.Score.Pass.{ispass_iff}
use edtech_lms_rpi_api.Score.Server.{server_count, verified_scores}
use edtech_lms_rpi_api.Score.Container.{confine_to_container}
use edtech_lms_rpi_api.Rewards.{Content}
use edtech_lms_rpi_api.Results.{
  Attempt, Store, Config, calculate_score, is_strict, is_pass, is_counted_pass,
}
use edtech_lms_rpi_api.Results.Save.{
  Luck, Calendar, attempt_of, plan_quiz, plan_attempt, create_lesson_quiz_progress,
}
use edtech_lms_rpi_api.Results.Steps.{find_or_create-cases, create_level_quiz-added}
use edtech_lms_rpi_api.Results.Graded.{
  Request, gated_pass, graded_items, scored_result, progress_of,
}
use edtech_lms_rpi_api.Results.Handlers.{
  Activities, save_lesson_quiz_result, save_level_quiz_result,
}

result_of-ispass :
    (kind : ResultContainer) (marks activecount : ℕ)
    → 0 < activecount
    → activecount < 4000
    → (result_of kind marks activecount).ispass ≡ true
    → 4 * activecount ≤ 5 * marks
result_of-ispass lessonpractice marks n p s h = (ispass_iff marks n p s).1.0 h
result_of-ispass lessonquiz marks n p s h = (ispass_iff marks n p s).0.0 h
result_of-ispass levelquiz marks n p s h = (ispass_iff marks n p s).0.0 h
result_of-ispass baseline marks n p s h = (ispass_iff marks n p s).0.0 h

any-last :
    {A : Type 0} (p : A → Bool) (xs : List A) (x : A)
    → any p xs ≡ false
    → any p (xs ++ x ∷ []) ≡ true
    → p x ≡ true
any-last p [] x h k = ground arith
any-last p (y ∷ xs) x h k = ground (arith, any-last p xs x)

-- The activities that REQUIRE_GRADED_ANSWERS gates.
abbrev is_gated : ResultContainer → Bool
is_gated lessonpractice = false
is_gated kind = true

-- A pass of a gated activity, when an unverified result is no pass.
gated_parts :
    (kind : ResultContainer) (config : Config) (verified ispass : Bool)
    → is_gated kind ≡ true
    → is_strict config ≡ true
    → gated_pass kind config verified ispass ≡ true
    → (verified ≡ true) × (ispass ≡ true)
unfolding gated_pass
gated_parts lessonpractice config verified ispass g s h = absurd (ground arith)
gated_parts lessonquiz config true ispass g s h = (refl, rw s at h)
gated_parts lessonquiz config false ispass g s h = absurd (ground (arith, rw s at h))
gated_parts levelquiz config true ispass g s h = (refl, rw s at h)
gated_parts levelquiz config false ispass g s h = absurd (ground (arith, rw s at h))
gated_parts baseline config true ispass g s h = (refl, rw s at h)
gated_parts baseline config false ispass g s h = absurd (ground (arith, rw s at h))

module _ (js : Js) (same : String → String → Bool) (db : Tables js.Num) (config : Config) where
  open js use {Num}

  -- The active questions of an activity, and how many of them the server finds answered right among
  -- the submitted items.
  abbrev pub active_count : ResultContainer → String → ℕ
  active_count kind container = length (active_ids same container (table_of same kind db))

  abbrev pub right_count : ResultContainer → String → Request Num → ℕ
  right_count kind container request =
      server_count js same (questions_of same kind db container)
        (active_ids same container (table_of same kind db))
        (confine_to_container same db kind container request.result)

  verified_pass :
      (kind : ResultContainer) (container : String) (request : Request Num)
      → 0 < active_count kind container
      → active_count kind container < 4000
      → is_enforce config.mode ≡ true
      → (graded_items js same db config kind container request.result).verified ≡ true
      → (scored_result js same db config kind container request.result).ispass ≡ true
      → 4 * active_count kind container ≤ 5 * right_count kind container request
  unfolding scored_result graded_items
  verified_pass kind container request pos small on verified pass =
      let e =
        verified_scores js same kind db container
          (confine_to_container same db kind container request.result) config.mode verified in
      result_of-ispass kind (right_count kind container request) (active_count kind container) pos
        small (ap (λ r. r.ispass) (sym e) ∙ rw (on, scored_result) at pass)

  -- An attempt that turns the activity into one with a counted pass.
  stored_pass :
      (kind : ResultContainer) (studentid id container : String) (earned : Bool → ℕ)
      (fullpoints scores : ℕ) (request : Request Num) (rows after : List Attempt)
      → is_gated kind ≡ true
      → 0 < active_count kind container
      → active_count kind container < 4000
      → is_strict config ≡ true
      → is_pass same config true studentid container rows ≡ false
      → after
        ≡ rows
          ++ attempt_of id kind scores
              (progress_of js same db config kind studentid container earned fullpoints request)
            ∷ []
      → is_pass same config true studentid container after ≡ true
      → 4 * active_count kind container ≤ 5 * right_count kind container request
  unfolding is_pass progress_of attempt_of
  stored_pass kind studentid id container earned fullpoints scores request rows after gated pos
        small strict n g k =
      let progress =
        progress_of js same db config kind studentid container earned fullpoints request in
      let counted =
        any-last (is_counted_pass same config true studentid container) rows
          (attempt_of id kind scores progress) n
          (subst (λ xs. is_pass same config true studentid container xs ≡ true) g k) in
      let pass = (&&-eq-true _ _ (&&-eq-true _ _ counted).0).1 in
      let (verified, scored) = gated_parts kind config _ _ gated strict pass in
      verified_pass kind container request pos small (&&-eq-true _ _ strict).0 verified scored

module _ (js : Js) (same : String → String → Bool) (db : Tables js.Num) (config : Config)
    (content : Content) (calendar : Calendar) (activities : Activities) where
  open js use {Num}

  -- Where the server grades (GRADING_MODE=enforce) and REQUIRE_GRADED_ANSWERS is on, a learner who has no
  -- counted pass of a lesson quiz, and has one after a save of a result, has answered at least four
  -- fifths of the quiz's active questions right by the server's own verdicts on the submitted items,
  -- whatever the items claim; for quizzes with 1 to 3999 active questions.
  pub strict_pass :
      (passrule : Bool) (studentid id lessonquizid : String) (request : Request Num) (luck : Luck)
      (seen now after : Store Num)
      → 0 < active_count js same db config lessonquiz lessonquizid
      → active_count js same db config lessonquiz lessonquizid < 4000
      → is_strict config ≡ true
      → is_pass same config true studentid lessonquizid seen.attempts ≡ false
      → is_pass same config true studentid lessonquizid now.attempts ≡ false
      → save_lesson_quiz_result js same db config content calendar activities passrule
          (some studentid)
          id
          lessonquizid
          request
          luck
          seen
          now
        ≡ ok after
      → is_pass same config true studentid lessonquizid after.attempts ≡ true
      → 4 * active_count js same db config lessonquiz lessonquizid
        ≤ 5 * right_count js same db config lessonquiz lessonquizid request
  unfolding save_lesson_quiz_result create_lesson_quiz_progress is_pass progress_of attempt_of
  strict_pass passrule studentid id lessonquizid request luck seen now after pos small strict s n h
        k =
      elim (Option-cases (activities.quiz lessonquizid)) [
        | inl e ↦ absurd (ground (arith, rw (e, save_lesson_quiz_result) at h))
        | inr (activity, e) ↦
            let progress =
              progress_of js same db config lessonquiz studentid lessonquizid
                (λ ispass. lesson_quiz_attempt_points passrule ispass activity.points)
                activity.fullpoints request in
            elim (find_or_create-cases same calendar content lessonquiz 3
              (calculate_score progress.passpercentage) id activity.lessonid
              (plan_quiz same passrule seen.attempts progress) luck progress now after
              (rw (e, s, save_lesson_quiz_result) at h)) [
                | inl (row, f, g, l, m) ↦ absurd (ground (arith, rw g at k))
                | inr (f, g) ↦
                    stored_pass js same db config lessonquiz studentid id lessonquizid
                      (λ ispass. lesson_quiz_attempt_points passrule ispass activity.points)
                      activity.fullpoints (calculate_score progress.passpercentage) request
                      now.attempts after.attempts refl pos small strict n g k
              ]
      ]

  -- Where the server grades (GRADING_MODE=enforce) and REQUIRE_GRADED_ANSWERS is on, a learner who has no
  -- counted pass of a level quiz, and has one after a save of a result, has answered at least four
  -- fifths of the level quiz's active questions right by the server's own verdicts on the submitted
  -- items, whatever the items claim; for level quizzes with 1 to 3999 active questions.
  pub strict_level_pass :
      (studentid id levelid : String) (request : Request Num) (luck : Luck)
      (seen now after : Store Num)
      → 0 < active_count js same db config levelquiz levelid
      → active_count js same db config levelquiz levelid < 4000
      → is_strict config ≡ true
      → is_pass same config true studentid levelid seen.attempts ≡ false
      → is_pass same config true studentid levelid now.attempts ≡ false
      → save_level_quiz_result js same db config content calendar activities
          (some studentid)
          id
          levelid
          request
          luck
          seen
          now
        ≡ ok after
      → is_pass same config true studentid levelid after.attempts ≡ true
      → 4 * active_count js same db config levelquiz levelid
        ≤ 5 * right_count js same db config levelquiz levelid request
  unfolding save_level_quiz_result is_pass progress_of attempt_of
  strict_level_pass studentid id levelid request luck seen now after pos small strict s n h k =
      elim (Option-cases (activities.level levelid)) [
        | inl e ↦ absurd (ground (arith, rw (e, save_level_quiz_result) at h))
        | inr (level, e) ↦
            let progress =
              progress_of js same db config levelquiz studentid levelid
                (λ ispass. level.quiz_points) level.quiz_points request in
            let (f, g) =
              create_level_quiz-added same calendar content id level
                (plan_attempt same seen.attempts progress) luck progress now after
                (rw (e, s, save_level_quiz_result) at h) in
            stored_pass js same db config levelquiz studentid id levelid
              (λ ispass. level.quiz_points) level.quiz_points
              (calculate_score progress.passpercentage) request now.attempts after.attempts refl pos
              small strict n g k
      ]
