-- ===== src/Rewards/Lessons.antt =====
-- The rows of the lessons (src/business/lesson.business.ts): what every change of points and scores
-- keeps of them.
use native.Mathlib.Nat.{le-div_iff_mul-le}
use mathlib.Core.Path.{subst}
use edtech_lms_rpi_api.Prelude.{
  ℕ, ◌+◌, ◌*◌, ◌/◌, ◌≤◌, ◌<◌, ◌≡◌, refl, sym, ◌∙◌, inl, inr, ℤ, pos, negsuc, pos_part, Bool, true,
  false, Option, none, some, List, [], ◌∷◌, String, eqb, arith, All, Bool-cases, Option-cases,
  &&-eq-true,
}
use edtech_lms_rpi_api.Prelude.Text.{is_empty}
use edtech_lms_rpi_api.Progress.{reaches, lesson_pass_mark, hundredths, progress_percent}
use edtech_lms_rpi_api.Rewards.{
  ProgressRow, Rewards, Level, Lesson, Content, upsert, change, reward_delta, pass_mark,
  lesson_gain, changed_lesson, created_lesson,
}
use edtech_lms_rpi_api.Rewards.Rows.{
  row_of, rewarded, scored_rows, reward-cases, scores-cases, update_user_reward,
  update_level_quiz_reward, add_student_scores, add_student_level_quiz_scores,
}

module _ {A : Type 0} (P : A → Type 0) (p : A → Bool) (f : A → A) where
  upsert-All :
      (fresh : A) (xs : List A)
      → ((x : A) → p x ≡ true → P x → P (f x))
      → P fresh
      → All P xs
      → All P (upsert p f fresh xs)
  unfolding upsert
  upsert-All fresh [] step new h = (new, tt)
  upsert-All fresh (x ∷ xs) step new h = elim (Bool-cases (p x)) [
    | inl e ↦ rw e (step x e h.0, h.1)
    | inr e ↦ rw e (h.0, upsert-All fresh xs step new h.1)
  ]

  pub change-All :
      (xs : List A) → ((x : A) → p x ≡ true → P x → P (f x)) → All P xs → All P (change p f xs)
  unfolding change
  change-All [] step h = tt
  change-All (x ∷ xs) step h = elim (Bool-cases (p x)) [
    | inl e ↦ rw e (step x e h.0, h.1)
    | inr e ↦ rw e (h.0, change-All xs step h.1)
  ]

-- The row of a lesson holds at most the lesson's points, and its percentage and its flag are those of
-- the points that it holds.
abbrev pub IsSettled : Content → ProgressRow → Type 0
IsSettled content row =
    (lesson : Lesson)
    → content.lesson row.key ≡ some lesson
    → 0 < lesson.total_points
    → (row.points ≤ lesson.total_points)
      × (row.progress ≡ progress_percent row.points lesson.total_points)
      × (row.completed ≡ reaches row.points (pass_mark lesson))

lesson_gain-le : (total points : ℕ) (delta : ℤ) → (lesson_gain total points delta).0 ≤ total
unfolding lesson_gain
lesson_gain-le total points delta = ground arith

progress_percent-zero : (total : ℕ) → 0 < total → hundredths 0 ≡ progress_percent 0 total
unfolding progress_percent
progress_percent-zero total h =
    let (to, from) = le-div_iff_mul-le {k = 2 * total} {x = 1} {y = 0 + total} (omega arith) in
    let d : (0 + total) / (2 * total) ≡ 0 = ground (arith, to) in
    let e : eqb total 0 ≡ false = ground arith in rw (e, d) refl

reaches-zero : (lesson : Lesson) → 0 < lesson.total_points → false ≡ reaches 0 (pass_mark lesson)
unfolding lesson_pass_mark
reaches-zero lesson h = ground arith

reward_delta-le :
    (points : ℕ) (old : Option ℕ) (total : ℕ)
    → points ≤ total
    → pos_part (reward_delta points old) ≤ total
reward_delta-le points none total h = h
reward_delta-le points (some old) total h = ground arith

module _ (same : String → String → Bool) (content : Content) where
  -- The database finds the same lesson by ids that it takes for equal.
  abbrev pub IsConsistent : Type 0
  IsConsistent = (a b : String) → same a b ≡ true → content.lesson a ≡ content.lesson b

  -- The points of an activity are within those of its lesson.
  abbrev pub IsWithin : String → ℕ → Type 0
  IsWithin lessonid points =
      (lesson : Lesson) → content.lesson lessonid ≡ some lesson → points ≤ lesson.total_points

  changed_lesson-IsSettled :
      (studentid lessonid : String) (lesson : Lesson) (delta : ℤ) (date : ℕ) (row : ProgressRow)
      → IsConsistent
      → content.lesson lessonid ≡ some lesson
      → row_of same studentid lessonid row ≡ true
      → IsSettled content (changed_lesson lesson delta date row)
  unfolding changed_lesson
  changed_lesson-IsSettled studentid lessonid lesson delta date row c e r other f more =
      let alike = (&&-eq-true _ _ r).0 in
      let joined : some other ≡ some lesson = sym f ∙ c row.key lessonid alike ∙ e in
      let d : other ≡ lesson = ground arith in
      rw d (lesson_gain-le lesson.total_points row.points delta, refl, refl)

  created_lesson-IsSettled :
      (studentid lessonid : String) (lesson : Lesson) (delta : ℤ) (date : ℕ)
      → content.lesson lessonid ≡ some lesson
      → pos_part delta ≤ lesson.total_points
      → IsSettled content (created_lesson lesson studentid lessonid delta date)
  unfolding created_lesson
  created_lesson-IsSettled studentid lessonid lesson (pos d) date e within other f more =
      let joined : some other ≡ some lesson = sym f ∙ e in
      let same_lesson : other ≡ lesson = ground arith in rw same_lesson (within, refl, refl)
  created_lesson-IsSettled studentid lessonid lesson (negsuc d) date e within other f more =
      (omega arith, progress_percent-zero other.total_points more, reaches-zero other more)

  reward-IsSettled :
      (studentid lessonid : String) (points : ℕ) (old : Option ℕ) (date : ℕ) (st : Rewards)
      → IsConsistent
      → IsWithin lessonid points
      → All (IsSettled content) st.lessons
      → All
          (IsSettled content)
          (update_user_reward same content studentid lessonid points old date st).lessons
  unfolding rewarded
  reward-IsSettled studentid lessonid points old date st c within h =
      elim (reward-cases same content studentid lessonid points old date st) [
        | inl e ↦ subst (λ s. All (IsSettled content) s.lessons) (sym e) h
        | inr (lesson, grade, e, f) ↦
            let delta = reward_delta points old in
            subst (λ s. All (IsSettled content) s.lessons) (sym f)
              (upsert-All (IsSettled content) (row_of same studentid lessonid)
                (changed_lesson lesson delta date)
                (created_lesson lesson studentid lessonid delta date) st.lessons
                (λ row r old_row.
                  changed_lesson-IsSettled studentid lessonid lesson delta date row c e r)
                (created_lesson-IsSettled studentid lessonid lesson delta date e
                  (reward_delta-le points old lesson.total_points (within lesson e)))
                h)
      ]

  scores-IsSettled :
      (studentid lessonid : String) (date scores : ℕ) (st : Rewards)
      → All (IsSettled content) st.lessons
      → All
          (IsSettled content)
          (add_student_scores same content studentid lessonid date scores st).lessons
  unfolding scored_rows
  scores-IsSettled studentid lessonid date scores st h =
      elim (scores-cases same content studentid lessonid date scores st) [
        | inl e ↦ subst (λ s. All (IsSettled content) s.lessons) (sym e) h
        | inr (lesson, grade, e, f) ↦
            subst (λ s. All (IsSettled content) s.lessons) (sym f)
              (change-All (IsSettled content) (row_of same studentid lessonid) _ st.lessons
                (λ row r settled. settled) h)
      ]

  level_quiz-lessons :
      (studentid : String) (level : Level) (old : Option ℕ) (date scores : ℕ) (st : Rewards)
      → ((update_level_quiz_reward same content studentid level old date st).lessons ≡ st.lessons)
        × ((add_student_level_quiz_scores same content studentid level date scores st).lessons
            ≡ st.lessons)
  unfolding update_level_quiz_reward add_student_level_quiz_scores
  level_quiz-lessons studentid level old date scores st =
      elim (Option-cases (content.grade level.gradeid)) [
        | inl e ↦ ground arith
        | inr (grade, e) ↦ elim (Bool-cases (is_empty studentid)) [
          | inl gone ↦ ground arith
          | inr there ↦ ground arith
        ]
      ]

  -- What may happen to the rewards, in any order: points for an activity of a lesson, points for a
  -- level quiz, and scores for either.
  pub data Step : Rewards → Rewards → Type 0 where
    reward :
        (studentid lessonid : String) (points : ℕ) (old : Option ℕ) (date : ℕ) (st : Rewards)
        → IsWithin lessonid points
        → Step st (update_user_reward same content studentid lessonid points old date st)
    level_quiz :
        (studentid : String) (level : Level) (old : Option ℕ) (date : ℕ) (st : Rewards)
        → Step st (update_level_quiz_reward same content studentid level old date st)
    score :
        (studentid lessonid : String) (date scores : ℕ) (st : Rewards)
        → Step st (add_student_scores same content studentid lessonid date scores st)
    level_score :
        (studentid : String) (level : Level) (date scores : ℕ) (st : Rewards)
        → Step st (add_student_level_quiz_scores same content studentid level date scores st)

  pub data Reachable : Rewards → Type 0 where
    start : Reachable (record { lessons = []; levels = []; grades = [] })
    next : {st after : Rewards} → Reachable st → Step st after → Reachable after

  Step-IsSettled :
      {st after : Rewards}
      → IsConsistent
      → Step st after
      → All (IsSettled content) st.lessons
      → All (IsSettled content) after.lessons
  Step-IsSettled c (reward studentid lessonid points old date st within) h =
      reward-IsSettled studentid lessonid points old date st c within h
  Step-IsSettled c (level_quiz studentid level old date st) h =
      subst (All (IsSettled content)) (sym (level_quiz-lessons studentid level old date 0 st).0) h
  Step-IsSettled c (score studentid lessonid date scores st) h =
      scores-IsSettled studentid lessonid date scores st h
  Step-IsSettled c (level_score studentid level date scores st) h =
      subst (All (IsSettled content))
        (sym (level_quiz-lessons studentid level none date scores st).1) h

  -- Whatever rewards and scores are given, in any order and to any learners, every lesson row holds
  -- at most the points of its lesson, its percentage is that of the points it holds, and it is marked
  -- complete exactly when they reach the lesson's pass mark; for lessons with a total above 0, activities
  -- worth at most their lesson's total, and a database that finds the same lesson by equal ids.
  pub Reachable-IsSettled :
      IsConsistent → (st : Rewards) → Reachable st → All (IsSettled content) st.lessons
  Reachable-IsSettled c st start = tt
  Reachable-IsSettled c st (next before step) =
      Step-IsSettled c step (Reachable-IsSettled c _ before)
