-- ===== src/Results/Resent.antt =====
-- A submission that is sent again (src/business/result.business.ts): the attempt is found, and a pass
-- that has the activity's points already is left as it is.
use mathlib.Core.Path.{subst}
use edtech_lms_rpi_api.Prelude.{
  ℕ, ◌≡◌, refl, sym, ap, ◌∙◌, inl, inr, Bool, true, false, Option, none, some, [], ◌∷◌, ◌++◌,
  String, eqb, any, find, arith, ok,
}
use edtech_lms_rpi_api.Score.{ResultContainer}
use edtech_lms_rpi_api.Rewards.{Content, change}
use edtech_lms_rpi_api.Results.{Attempt, Store, Config, is_counted_pass}
use edtech_lms_rpi_api.Results.Save.{
  Progress, Plan, Luck, fine, broken, raced, is_broken, Calendar, has_key, attempt_of,
  update_points, set_student_active, find_or_create,
}
use edtech_lms_rpi_api.Results.Create.{Activity, repeat_lesson_activity}
use edtech_lms_rpi_api.Results.Steps.{find_or_create-cases, set_student_active-eq}
use edtech_lms_rpi_api.Results.Newest.{
  IsEquality, find-any, any-append_last, any-find, any-last, change-last, is_counted_pass-replaced,
}

-- What is stored after the second save is what was stored before it, but for the active markers.
pub record IsUnchanged {N : Type 0} (before after : Store N) : Type 0 where
  pub attempts : after.attempts ≡ before.attempts
  pub answers : after.answers ≡ before.answers
  pub rewards : after.rewards ≡ before.rewards

module _ {N : Type 0} (same : String → String → Bool) (calendar : Calendar) (content : Content)
    (equal : IsEquality same) where
  abbrev pub counted : Config → Bool → Progress N → Attempt → Bool
  counted config gated progress =
      is_counted_pass same config gated progress.studentid progress.reference

  abbrev key : Progress N → Attempt → Bool
  key progress = has_key same progress.studentid progress.reference progress.starttime

  found_again :
      (type : ResultContainer) (kind scores : ℕ) (id lessonid : String) (plan : Plan) (luck : Luck)
      (progress : Progress N) (st : Store N) (row : Attempt)
      → is_broken luck ≡ false
      → find (key progress) st.attempts ≡ some row
      → (after : Store N) × (find_or_create same content calendar type kind scores id lessonid plan
            luck progress st
          ≡ ok after)
  unfolding find_or_create
  found_again type kind scores id lessonid plan broken progress st row b e = absurd (ground arith)
  found_again type kind scores id lessonid plan raced progress st row b e =
      (st, rw (e, find_or_create) refl)
  found_again type kind scores id lessonid plan fine progress st row b e = (
    set_student_active same calendar progress.studentid progress.reference kind progress.starttime
        st,
    rw (e, find_or_create) refl,
  )

  saved_key :
      (type : ResultContainer) (kind scores : ℕ) (id lessonid : String) (plan : Plan) (luck : Luck)
      (progress : Progress N) (st after : Store N)
      → find_or_create same content calendar type kind scores id lessonid plan luck progress st
        ≡ ok after
      → any (key progress) after.attempts ≡ true
  unfolding attempt_of
  saved_key type kind scores id lessonid plan luck progress st after h =
      elim (find_or_create-cases same calendar content type kind scores id lessonid plan luck
        progress st after h) [
          | inl (row, e, f, g, k) ↦
              subst (λ xs. any (key progress) xs ≡ true) (sym f)
                (any-find (key progress) st.attempts row e)
          | inr (e, f) ↦
              let here : eqb progress.starttime progress.starttime ≡ true = ground arith in
              let one : key progress (attempt_of id type scores progress) ≡ true =
                rw (equal.reflexive progress.studentid, equal.reflexive progress.reference, here)
                  refl in
              subst (λ xs. any (key progress) xs ≡ true) (sym f)
                (any-append_last (key progress) st.attempts (attempt_of id type scores progress)
                  one)
        ]

  -- The same submission, saved again as an attempt, is found.
  pub find_or_create-again :
      (type : ResultContainer) (kind scores : ℕ) (id id_again lessonid : String)
      (plan plan_again : Plan) (luck luck_again : Luck) (progress : Progress N) (st saved : Store N)
      → find_or_create same content calendar type kind scores id lessonid plan luck progress st
        ≡ ok saved
      → is_broken luck_again ≡ false
      → (after : Store N) × (find_or_create same content calendar type kind scores id_again lessonid
            plan_again luck_again progress saved
          ≡ ok after)
        × IsUnchanged saved after
  find_or_create-again type kind scores id id_again lessonid plan plan_again luck luck_again
        progress st saved h b =
      let (row, e) =
        find-any (key progress) saved.attempts
          (saved_key type kind scores id lessonid plan luck progress st saved h) in
      let (after, f) =
        found_again type kind scores id_again lessonid plan_again luck_again progress saved row b
          e in
      elim (find_or_create-cases same calendar content type kind scores id_again lessonid plan_again
        luck_again progress saved after f) [
          | inl (there, g, k, l, m) ↦ (after, f, record { attempts = k; answers = l; rewards = m })
          | inr (gone, g) ↦ absurd (ground (arith, rw e at gone))
        ]

  -- A pass that is reported again, with no points to take back.
  pub repeat_lesson-IsUnchanged :
      (config : Config) (gated : Bool) (kind : ℕ) (studentid : String) (activity : Activity)
      (old : Option ℕ) (date : ℕ) (fails : Bool) (st : Store N)
      → old ≡ none
      → fails ≡ false
      → update_points same config gated studentid activity.id activity.points activity.fullpoints
          st.attempts
        ≡ st.attempts
      → (after : Store N) × (repeat_lesson_activity same content calendar config gated kind
            studentid activity old date fails st
          ≡ ok after)
        × IsUnchanged st after
  unfolding repeat_lesson_activity
  repeat_lesson-IsUnchanged config gated kind studentid activity old date fails st n b e =
      let same_points = record st {
        attempts =
            update_points same config gated studentid activity.id activity.points
              activity.fullpoints st.attempts;
      } in
      let (f, g, k) =
        set_student_active-eq same calendar studentid activity.id kind date same_points in
      (
        set_student_active same calendar studentid activity.id kind date same_points,
        rw (n, b) refl,
        record { attempts = f ∙ e; answers = g; rewards = k },
      )

  -- The pass of a submission that was saved is the learner's only one, and has the activity's points.
  pub saved_pass :
      (config : Config) (gated : Bool) (type : ResultContainer) (kind scores : ℕ)
      (id lessonid : String) (plan : Plan) (luck : Luck) (activity : Activity)
      (progress : Progress N) (st saved : Store N)
      → same activity.id progress.reference ≡ true
      → (progress.ispass ≡ true → progress.points ≡ activity.points)
      → progress.fullpoints ≡ activity.fullpoints
      → find_or_create same content calendar type kind scores id lessonid plan luck progress st
        ≡ ok saved
      → any (counted config gated progress) st.attempts ≡ false
      → any (counted config gated progress) saved.attempts ≡ true
      → let a = attempt_of id type scores progress in
        (saved.attempts ≡ st.attempts ++ a ∷ [])
        × (find (key progress) st.attempts ≡ none)
        × (counted config gated progress a ≡ true)
        × (a.points ≡ some activity.points)
        × (update_points same config gated progress.studentid activity.id activity.points
              activity.fullpoints saved.attempts
            ≡ saved.attempts)
  unfolding attempt_of update_points
  saved_pass config gated type kind scores id lessonid plan luck activity progress st saved e points
        full h n k =
      let c = counted config gated progress in
      let a = attempt_of id type scores progress in
      elim (find_or_create-cases same calendar content type kind scores id lessonid plan luck
        progress st saved h) [
          | inl (row, there, f, g, l) ↦ absurd (ground (arith, n, rw f at k))
          | inr (gone, f) ↦
              let mine : c a ≡ true = sym (any-last c st.attempts a n) ∙ (rw f at k) in
              let won : progress.ispass ≡ true = ground (arith, mine) in
              let fixed : change c
                    (λ b. record b {
                      points = some activity.points;
                      fullpoints = activity.fullpoints;
                    })
                    (st.attempts ++ a ∷ [])
                  ≡ st.attempts ++ a ∷ [] =
                change-last c _ st.attempts a n (rw (points won, full) refl) in
              (
                f,
                gone,
                mine,
                ap some (points won),
                rw
                    (
                      f,
                      is_counted_pass-replaced same equal config gated progress.studentid
                          activity.id progress.reference e,
                    )
                    fixed,
              )
        ]
