-- ===== src/Results/Steps.antt =====
-- What saves of attempts write (src/business/result.business.ts); a save's plan may be any plan, so that
-- other requests may have written since it was read.
use edtech_lms_rpi_api.Prelude.{
  ℕ, ◌≡◌, refl, sym, ap, ◌∙◌, ◌⊎◌, inl, inr, Bool, true, false, ◌||◌, none, some, List, [], ◌∷◌,
  ◌++◌, String, any, find, Bool-cases, Option-cases, ok, ok-injective, err-not-ok,
}
use edtech_lms_rpi_api.Prelude.Text.{is_empty}
use edtech_lms_rpi_api.Submission.{GradedItem}
use edtech_lms_rpi_api.Score.{ResultContainer, levelquiz}
use edtech_lms_rpi_api.Rewards.{Rewards, Level, Content}
use edtech_lms_rpi_api.Rewards.Rows.{
  update_user_reward, add_student_scores, update_level_quiz_reward, add_student_level_quiz_scores,
}
use edtech_lms_rpi_api.Results.{Attempt, Store, calculate_score}
use edtech_lms_rpi_api.Results.Save.{
  Progress, Plan, Luck, fine, broken, raced, earns, Calendar, attempt_of, insert, with_rewards,
  has_key, is_active_on, set_student_active, record_attempt, find_or_create,
}
use edtech_lms_rpi_api.Results.Create.{create_level_quiz_progress}

module _ {N : Type 0} (same : String → String → Bool) (calendar : Calendar) where
  pub set_student_active-eq :
      (studentid reference : String) (kind date : ℕ) (st : Store N)
      → let after = set_student_active same calendar studentid reference kind date st in
        (after.attempts ≡ st.attempts) × (after.answers ≡ st.answers) × (after.rewards ≡ st.rewards)
  unfolding set_student_active
  set_student_active-eq studentid reference kind date st =
      elim (Bool-cases (
        any (is_active_on same calendar studentid reference date) st.actives
        || is_empty studentid)) [
          | inl e ↦ rw (e, set_student_active) (refl, refl, refl)
          | inr e ↦ rw (e, set_student_active) (refl, refl, refl)
        ]

  record_attempt-attempts :
      (a : Attempt) (items : List (GradedItem N)) (kind : ℕ) (is_earned : Bool)
      (reward score : Rewards → Rewards) (st : Store N)
      → (record_attempt same calendar a items kind is_earned reward score st).attempts
        ≡ st.attempts ++ a ∷ []
  unfolding record_attempt insert
  record_attempt-attempts a items kind true reward score st =
      (set_student_active-eq a.studentid a.studentprogressreferenceid kind a.starttime
        (with_rewards reward (insert a items st))).0
  record_attempt-attempts a items kind false reward score st =
      (set_student_active-eq a.studentid a.studentprogressreferenceid kind a.starttime
        (insert a items st)).0

  module _ (content : Content) where
    -- A save that does not throw finds the attempt, and writes at most the active marker, or adds it.
    pub find_or_create-cases :
        (type : ResultContainer) (kind scores : ℕ) (id lessonid : String) (plan : Plan)
        (luck : Luck) (progress : Progress N) (st after : Store N)
        → find_or_create same content calendar type kind scores id lessonid plan luck progress st
          ≡ ok after
        → let key = has_key same progress.studentid progress.reference progress.starttime in
          ((row : Attempt) × (find key st.attempts ≡ some row)
            × (after.attempts ≡ st.attempts)
            × (after.answers ≡ st.answers)
            × (after.rewards ≡ st.rewards))
          ⊎ ((find key st.attempts ≡ none)
              × (after.attempts ≡ st.attempts ++ attempt_of id type scores progress ∷ []))
    unfolding find_or_create attempt_of
    find_or_create-cases type kind scores id lessonid plan broken progress st after h =
        absurd (err-not-ok _ _ h)
    find_or_create-cases type kind scores id lessonid plan raced progress st after h =
        elim (Option-cases (
          find (has_key same progress.studentid progress.reference progress.starttime)
            st.attempts)) [
              | inl e ↦ absurd (err-not-ok _ _ (rw (e, find_or_create) at h))
              | inr (row, e) ↦
                  let f = sym (ok-injective _ _ (rw (e, find_or_create) at h)) in
                  inl (row, e, ap (λ s. s.attempts) f, ap (λ s. s.answers) f, ap (λ s. s.rewards) f)
            ]
    find_or_create-cases type kind scores id lessonid plan fine progress st after h =
        elim (Option-cases (
          find (has_key same progress.studentid progress.reference progress.starttime)
            st.attempts)) [
              | inl e ↦ inr (
                e,
                ap (λ s. s.attempts) (sym (ok-injective _ _ (rw (e, find_or_create) at h)))
                    ∙ record_attempt-attempts (attempt_of id type scores progress)
                        progress.actualanswers kind (earns plan)
                        (update_user_reward same content progress.studentid lessonid progress.points
                          plan.oldpoints progress.starttime)
                        (add_student_scores same content progress.studentid lessonid
                          progress.starttime scores)
                        st,
              )
              | inr (row, e) ↦
                  let f = sym (ok-injective _ _ (rw (e, find_or_create) at h)) in
                  let g =
                    set_student_active-eq progress.studentid progress.reference kind
                      progress.starttime st in
                  inl (
                    row,
                    e,
                    ap (λ s. s.attempts) f ∙ g.0,
                    ap (λ s. s.answers) f ∙ g.1,
                    ap (λ s. s.rewards) f ∙ g.2,
                  )
            ]

    -- A level quiz that is saved has a new key, and its attempt is added.
    pub create_level_quiz-added :
        (id : String) (level : Level) (plan : Plan) (luck : Luck) (progress : Progress N)
        (st after : Store N)
        → create_level_quiz_progress same content calendar id level plan luck progress st ≡ ok after
        → let scores = calculate_score progress.passpercentage in
          (find (has_key same progress.studentid progress.reference progress.starttime) st.attempts
            ≡ none)
          × (after.attempts ≡ st.attempts ++ attempt_of id levelquiz scores progress ∷ [])
    unfolding create_level_quiz_progress attempt_of
    create_level_quiz-added id level plan broken progress st after h = absurd (err-not-ok _ _ h)
    create_level_quiz-added id level plan raced progress st after h = absurd (err-not-ok _ _ h)
    create_level_quiz-added id level plan fine progress st after h =
        let scores = calculate_score progress.passpercentage in
        elim (Option-cases (
          find (has_key same progress.studentid progress.reference progress.starttime)
            st.attempts)) [
              | inl e ↦ (
                e,
                (ap (λ s. s.attempts)
                      (sym (ok-injective _ _ (rw (e, create_level_quiz_progress) at h)))
                    ∙ record_attempt-attempts (attempt_of id levelquiz scores progress)
                        progress.actualanswers 4 (earns plan)
                        (update_level_quiz_reward same content progress.studentid level
                          plan.oldpoints progress.starttime)
                        (add_student_level_quiz_scores same content progress.studentid level
                          progress.starttime scores)
                        st),
              )
              | inr (row, e) ↦ absurd (err-not-ok _ _ (rw (e, create_level_quiz_progress) at h))
            ]
