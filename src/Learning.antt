-- ===== src/Learning.antt =====
-- src/business/lesson.business.ts: a learner's progress in a learning item (updatelearningprogress). A
-- report's times are as they are rounded at the start; the table of daily points is left out.
pub mod Once
use edtech_lms_rpi_api.Prelude.{
  ℕ, ◌+◌, Bool, true, false, not, ◌&&◌, ◌||◌, Option, none, some, List, String, if◌then◌else◌, eqb,
  ltb, find, Result, ok, err,
}
use edtech_lms_rpi_api.Progress.{Percent, hundredths, progress_percent}
use edtech_lms_rpi_api.Rewards.{Content, upsert}
use edtech_lms_rpi_api.Rewards.Rows.{update_user_reward, add_student_scores}
use edtech_lms_rpi_api.Results.{Store}
use edtech_lms_rpi_api.Results.Save.{Calendar, with_rewards, set_student_active}

-- A row of `studentlearningprogress`.
pub record LearningRow : Type 0 where
  pub studentid : String
  pub lessonlearningid : String
  pub content_length : ℕ
  pub progress_percentage : Percent
  pub progress : ℕ
  pub viewed : ℕ
  pub points : Option ℕ
  pub lastupdated : ℕ

-- A row of `lessonlearnings`.
pub record LearningItem : Type 0 where
  pub lessonlearningid : String
  pub lessonid : String
  pub points : ℕ

pub record Report : Type 0 where
  pub content_length : ℕ
  pub time : ℕ
  pub ended : Bool
  pub date : ℕ

pub data LearningError : Type 0 where
  no_item no_student no_content_length database_failed : LearningError

pub record LearningStore (N : Type 0) : Type 0 where
  pub learning : List LearningRow
  pub rest : Store N

unfoldable pub report_percent : Report → Percent
report_percent report =
    if ltb 0 report.content_length
    then progress_percent report.time report.content_length
    else hundredths (if report.ended then 10000 else 0)

abbrev pub one_if : Bool → ℕ
one_if b = if b then 1 else 0

unfoldable pub created_row : String → LearningItem → Report → LearningRow
unfolding report_percent
created_row studentid item report = record {
  studentid = studentid;
  lessonlearningid = item.lessonlearningid;
  content_length = report.content_length;
  progress_percentage = report_percent report;
  progress = report.time;
  viewed = one_if report.ended;
  points = some (if report.ended then item.points else 0);
  lastupdated = report.date;
}

-- The item counts as seen: before, or by this report.
abbrev pub is_seen : Report → LearningRow → Bool
is_seen report row = ltb 0 row.viewed || report.ended

unfoldable pub changed_row : LearningItem → Report → LearningRow → LearningRow
unfolding report_percent
changed_row item report row = record row {
  content_length = report.content_length;
  progress_percentage = report_percent report;
  progress = report.time;
  viewed = row.viewed + one_if report.ended;
  points = some (if is_seen report row then item.points else 0);
  lastupdated = report.date;
}

abbrev pub next_row : String → LearningItem → Report → Option LearningRow → LearningRow
next_row studentid item report none = created_row studentid item report
next_row studentid item report (some row) = changed_row item report row

-- `oldpoints`; it is null when the stored points are NULL.
abbrev pub old_points : LearningItem → Report → Option LearningRow → Option ℕ
old_points item report none = none
old_points item report (some row) = elim row.points [
  | none ↦ none
  | some points ↦ if is_seen report row && not (eqb points item.points) then some points else none
]

-- The reward that a report gives, if it gives one: the points to take back.
unfoldable pub reward_of : String → LearningItem → Report → Option LearningRow → Option (Option ℕ)
unfolding created_row changed_row
reward_of studentid item report row = elim (old_points item report row) [
  | some old ↦ some (some old)
  | none ↦
      if eqb (next_row studentid item report row).viewed 1 && report.ended then some none else none
]

abbrev is_row_of : (String → String → Bool) → String → String → LearningRow → Bool
is_row_of same studentid lessonlearningid row =
    same row.studentid studentid && same row.lessonlearningid lessonlearningid

-- `same` is how the database compares two ids.
module _ {N : Type 0} (same : String → String → Bool) (content : Content)
    (calendar : Calendar) where
  abbrev rewarded_store : String → LearningItem → ℕ → Option (Option ℕ) → Store N → Store N
  rewarded_store user item date none st = st
  rewarded_store user item date (some old) st =
      with_rewards (update_user_reward same content user item.lessonid item.points old date) st

  -- `item` and `student` are what the queries find, `user` the learner of the token.
  unfoldable pub update_learning_progress :
      Option LearningItem
      → Option String
      → String
      → Report
      → Bool
      → LearningStore N
      → Result LearningError (LearningStore N)
  unfolding upsert created_row changed_row reward_of update_user_reward set_student_active
      add_student_scores
  update_learning_progress none student user report fails st = err no_item
  update_learning_progress (some item) none user report fails st = err no_student
  update_learning_progress (some item) (some studentid) user report fails st =
      let mine = is_row_of same studentid item.lessonlearningid in
      let reward = reward_of studentid item report (find mine st.learning) in
      let marked =
        set_student_active same calendar user item.lessonlearningid 1 report.date
          (rewarded_store user item report.date reward st.rest) in
      let score = add_student_scores same content user item.lessonid report.date 0 in
      if not report.ended && not (ltb 0 report.content_length)
      then err no_content_length
      else if fails
      then err database_failed
      else ok (record {
        learning =
            upsert mine (changed_row item report) (created_row studentid item report) st.learning;
        rest = if report.ended then with_rewards score marked else marked;
      })
