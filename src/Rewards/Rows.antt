-- ===== src/Rewards/Rows.antt =====
-- src/business/lesson.business.ts: updateUserReward, updateLevelQuizReward, addstudentscores and
-- addstudentlevelquizscores. `same` is how the database compares two ids. A percentage of a total
-- that is 0 is kept as the runtime computes it; what the database makes of it is not followed.
use edtech_lms_rpi_api.Prelude.{
  ℕ, ◌+◌, ℤ, Bool, false, not, ◌&&◌, ◌||◌, Option, none, some, List, String, if◌then◌else◌, find,
  ◌≡◌, refl, ◌⊎◌, inl, inr, Bool-cases, Option-cases,
}
use edtech_lms_rpi_api.Prelude.Text.{is_empty}
use edtech_lms_rpi_api.Progress.{progress_percent}
use edtech_lms_rpi_api.Rewards.{
  ProgressRow, Rewards, Level, Lesson, Grade, Content, upsert, change, reward_delta, is_nonneg,
  is_positive, lesson_gain, changed_lesson, created_lesson, changed_total, created_total, is_full,
}

-- The effect of scoring on a row: what is added to its scores, and the flag of the bonus.
abbrev scored : ℕ → Bool → ℕ → ProgressRow → ProgressRow
scored added flag currentdate row = record row {
  scores = row.scores + added;
  bonus_added = flag;
  lastupdated = currentdate;
}

-- The bonus of a lesson that is full for the first time, and of a level's first quiz.
abbrev pub lesson_bonus : Lesson → ProgressRow → Bool
lesson_bonus lesson row =
    is_full (progress_percent row.points lesson.total_points) && not row.bonus_added

abbrev pub level_bonus : ProgressRow → Bool
level_bonus row = not row.bonus_added

abbrev pub with_bonus : Bool → ℕ → ℕ
with_bonus bonus scores = if bonus then scores + 1 else scores

module _ (same : String → String → Bool) where
  -- `where: { studentid, lessonid }`, or the id of a level or grade
  abbrev pub row_of : String → String → ProgressRow → Bool
  row_of studentid id row = same row.key id && same row.studentid studentid

  -- What reaches the level and the grade: an existing lesson row keeps what overflows.
  unfoldable pub rest_of : Lesson → ℤ → Option ProgressRow → ℤ
  unfolding lesson_gain
  rest_of lesson delta none = delta
  rest_of lesson delta (some row) = (lesson_gain lesson.total_points row.points delta).1

  unfoldable pub add_total :
      ℕ → String → String → Bool → ℤ → ℕ → List ProgressRow → List ProgressRow
  unfolding upsert changed_total created_total
  add_total total studentid id counts delta currentdate =
      upsert (row_of studentid id) (changed_total total delta currentdate)
        (created_total total studentid id counts delta currentdate)

  -- The three rows that a reward touches.
  unfoldable pub rewarded : Lesson → Grade → String → String → ℤ → ℕ → Rewards → Rewards
  unfolding upsert changed_lesson created_lesson rest_of add_total
  rewarded lesson grade studentid lessonid delta currentdate st =
      let rest = rest_of lesson delta (find (row_of studentid lessonid) st.lessons) in
      let level = lesson.level in
      record {
        lessons =
            upsert (row_of studentid lessonid) (changed_lesson lesson delta currentdate)
              (created_lesson lesson studentid lessonid delta currentdate) st.lessons;
        levels =
            add_total level.points studentid level.levelid (is_nonneg rest) rest currentdate
              st.levels;
        grades =
            add_total grade.points studentid grade.gradeid (is_nonneg rest) rest currentdate
              st.grades;
      }

  unfoldable pub update_user_reward :
      Content → String → String → ℕ → Option ℕ → ℕ → Rewards → Rewards
  unfolding rewarded
  update_user_reward content studentid lessonid points oldpoints currentdate st =
      let delta = reward_delta points oldpoints in
      elim (content.lesson lessonid) [
        | none ↦ st
        | some lesson ↦
            if is_empty studentid then st else elim (content.grade lesson.level.gradeid) [
              | none ↦ st
              | some grade ↦ rewarded lesson grade studentid lessonid delta currentdate st
            ]
      ]

  unfoldable pub update_level_quiz_reward :
      Content → String → Level → Option ℕ → ℕ → Rewards → Rewards
  unfolding add_total
  update_level_quiz_reward content studentid level oldpoints currentdate st =
      let delta = reward_delta level.quiz_points oldpoints in
      elim (content.grade level.gradeid) [
        | none ↦ st
        | some grade ↦ if is_empty studentid then st else record {
          lessons = st.lessons;
          levels =
              add_total level.points studentid level.levelid (is_positive delta) delta currentdate
                st.levels;
          grades =
              add_total grade.points studentid grade.gradeid (is_positive delta) delta currentdate
                st.grades;
        }
      ]

  abbrev add_scores : String → String → ℕ → ℕ → List ProgressRow → List ProgressRow
  add_scores studentid id scores currentdate =
      change (row_of studentid id) (λ row. scored scores row.bonus_added currentdate row)

  abbrev bonus_of : (ProgressRow → Bool) → Option ProgressRow → Bool
  bonus_of bonus none = false
  bonus_of bonus (some row) = bonus row

  -- The bonus of the lesson is added to the scores of the level and the grade, too.
  unfoldable pub scored_rows : Lesson → Grade → String → String → ℕ → ℕ → Rewards → Rewards
  unfolding change
  scored_rows lesson grade studentid lessonid currentdate scores st =
      let bonus = bonus_of (lesson_bonus lesson) (find (row_of studentid lessonid) st.lessons) in
      let added = with_bonus bonus scores in
      record {
        lessons =
            change (row_of studentid lessonid)
              (λ row. scored added (row.bonus_added || bonus) currentdate row) st.lessons;
        levels = add_scores studentid lesson.level.levelid added currentdate st.levels;
        grades = add_scores studentid grade.gradeid added currentdate st.grades;
      }

  unfoldable pub add_student_scores : Content → String → String → ℕ → ℕ → Rewards → Rewards
  unfolding scored_rows
  add_student_scores content studentid lessonid currentdate scores st =
      elim (content.lesson lessonid) [
        | none ↦ st
        | some lesson ↦
            if is_empty studentid then st else elim (content.grade lesson.level.gradeid) [
              | none ↦ st
              | some grade ↦ scored_rows lesson grade studentid lessonid currentdate scores st
            ]
      ]

  unfoldable pub add_student_level_quiz_scores :
      Content → String → Level → ℕ → ℕ → Rewards → Rewards
  unfolding change
  add_student_level_quiz_scores content studentid level currentdate scores st =
      elim (content.grade level.gradeid) [
        | none ↦ st
        | some grade ↦
            if is_empty studentid
            then st
            else let bonus =
                bonus_of level_bonus (find (row_of studentid level.levelid) st.levels) in
              let added = with_bonus bonus scores in
              record {
                lessons = st.lessons;
                levels =
                    change (row_of studentid level.levelid)
                      (λ row. scored added (row.bonus_added || bonus) currentdate row) st.levels;
                grades = add_scores studentid grade.gradeid added currentdate st.grades;
              }
      ]

  pub reward-eq :
      (content : Content) (studentid lessonid : String) (points : ℕ) (old : Option ℕ) (date : ℕ)
      (st : Rewards) (lesson : Lesson) (grade : Grade)
      → content.lesson lessonid ≡ some lesson
      → is_empty studentid ≡ false
      → content.grade lesson.level.gradeid ≡ some grade
      → update_user_reward content studentid lessonid points old date st
        ≡ rewarded lesson grade studentid lessonid (reward_delta points old) date st
  unfolding update_user_reward
  reward-eq content studentid lessonid points old date st lesson grade e there f =
      rw (e, there, f, update_user_reward) refl

  -- A reward, or a score, finds its lesson, its learner and its grade, or it changes nothing.
  pub reward-cases :
      (content : Content) (studentid lessonid : String) (points : ℕ) (old : Option ℕ) (date : ℕ)
      (st : Rewards)
      → (update_user_reward content studentid lessonid points old date st ≡ st)
        ⊎ ((lesson : Lesson) × (grade : Grade) × (content.lesson lessonid ≡ some lesson)
            × (update_user_reward content studentid lessonid points old date st
                ≡ rewarded lesson grade studentid lessonid (reward_delta points old) date st))
  unfolding update_user_reward
  reward-cases content studentid lessonid points old date st =
      elim (Option-cases (content.lesson lessonid)) [
        | inl e ↦ inl (rw (e, update_user_reward) refl)
        | inr (lesson, e) ↦ elim (Bool-cases (is_empty studentid)) [
          | inl gone ↦ inl (rw (e, gone, update_user_reward) refl)
          | inr there ↦ elim (Option-cases (content.grade lesson.level.gradeid)) [
            | inl f ↦ inl (rw (e, there, f, update_user_reward) refl)
            | inr (grade, f) ↦ inr (
              lesson,
              grade,
              e,
              reward-eq content studentid lessonid points old date st lesson grade e there f,
            )
          ]
        ]
      ]

  pub scores-cases :
      (content : Content) (studentid lessonid : String) (date scores : ℕ) (st : Rewards)
      → (add_student_scores content studentid lessonid date scores st ≡ st)
        ⊎ ((lesson : Lesson) × (grade : Grade) × (content.lesson lessonid ≡ some lesson)
            × (add_student_scores content studentid lessonid date scores st
                ≡ scored_rows lesson grade studentid lessonid date scores st))
  unfolding add_student_scores
  scores-cases content studentid lessonid date scores st =
      elim (Option-cases (content.lesson lessonid)) [
        | inl e ↦ inl (rw (e, add_student_scores) refl)
        | inr (lesson, e) ↦ elim (Bool-cases (is_empty studentid)) [
          | inl gone ↦ inl (rw (e, gone, add_student_scores) refl)
          | inr there ↦ elim (Option-cases (content.grade lesson.level.gradeid)) [
            | inl f ↦ inl (rw (e, there, f, add_student_scores) refl)
            | inr (grade, f) ↦ inr (lesson, grade, e, rw (e, there, f, add_student_scores) refl)
          ]
        ]
      ]
