-- ===== src/Results/Save.antt =====
-- src/business/result.business.ts: what saving an attempt writes. Each operation reads the attempts
-- first (a plan) and writes in one transaction afterwards; between the two, other requests may write.
-- A start time that a request leaves out is the time of the request.
use edtech_lms_rpi_api.Prelude.{
  ℕ, Bool, true, false, not, ◌&&◌, ◌||◌, Option, none, some, List, [], ◌∷◌, ◌++◌, map, String,
  if◌then◌else◌, eqb, leb, ltb, any, find, Result, ok, err,
}
use edtech_lms_rpi_api.Prelude.Text.{is_empty}
use edtech_lms_rpi_api.Submission.{GradedItem}
use edtech_lms_rpi_api.Score.{ResultContainer, lessonpractice, lessonquiz}
use edtech_lms_rpi_api.Rewards.{Rewards, Content, change}
use edtech_lms_rpi_api.Rewards.Rows.{update_user_reward, add_student_scores}
use edtech_lms_rpi_api.Results.{
  Attempt, Active, Store, Config, calculate_score, answer_row, has_tried, get_old_points,
  get_newest_attempt, is_try, is_counted_pass,
}

-- The `progress` that a handler makes of a graded submission.
pub record Progress (N : Type 0) : Type 0 where
  pub studentid : String
  pub reference : String
  pub starttime : ℕ
  pub endtime : Option ℕ
  pub ispass : Bool
  pub verified : Bool
  pub marks : ℕ
  pub points : ℕ
  pub fullpoints : ℕ
  pub passpercentage : ℕ
  pub actualanswers : List (GradedItem N)

-- What was read: an earlier attempt, the points to take back, and (for quizzes) that the attempt is
-- dated before the newest one and earns nothing.
pub record Plan : Type 0 where
  pub tried : Bool
  pub oldpoints : Option ℕ
  pub stale : Bool

-- What befalls the transaction: nothing, a failure of the database, or that another request stores
-- the row between the query of `findOrCreate` and its insert.
pub data Luck : Type 0 where
  fine broken raced : Luck

-- What a request throws: `query_error` is a query with an id that is `undefined`.
pub data Thrown : Type 0 where
  database_error unique_constraint_error query_error not_found : Thrown

abbrev pub is_broken : Luck → Bool
is_broken broken = true
is_broken _ = false

-- An option that is not `null`.
abbrev pub is_some : Option ℕ → Bool
is_some none = false
is_some (some n) = true

abbrev pub earns : Plan → Bool
earns plan = not plan.stale && (not plan.tried || is_some plan.oldpoints)

-- `startOfDay(date)` and `startOfDay(addDays(date, 1))` of the date library.
pub record Calendar : Type 0 where
  pub today : ℕ → ℕ
  pub tomorrow : ℕ → ℕ

module _ {N : Type 0} where
  unfoldable pub attempt_of : String → ResultContainer → ℕ → Progress N → Attempt
  attempt_of id kind scores progress = record {
    studentprogressid = id;
    progresstype = kind;
    studentid = progress.studentid;
    studentprogressreferenceid = progress.reference;
    starttime = progress.starttime;
    endtime = progress.endtime;
    ispass = progress.ispass;
    verified = progress.verified;
    marks = progress.marks;
    points = some progress.points;
    fullpoints = progress.fullpoints;
    resultpercentage = progress.passpercentage;
    scores = scores;
  }

  -- The rows that an insert adds: the attempt and its answers.
  unfoldable pub insert : Attempt → List (GradedItem N) → Store N → Store N
  insert a actualanswers st = record st {
    attempts = st.attempts ++ a ∷ [];
    answers = st.answers ++ map (answer_row a.studentprogressid) actualanswers;
  }

  abbrev pub with_rewards : (Rewards → Rewards) → Store N → Store N
  with_rewards f st = record st { rewards = f st.rewards }

-- `same` is how the database compares two ids.
module _ (same : String → String → Bool) where
  -- The row has this submission's key (`where: { studentid, studentprogressreferenceid, starttime }`).
  abbrev pub has_key : String → String → ℕ → Attempt → Bool
  has_key studentid reference starttime a =
      is_try same studentid reference a && eqb a.starttime starttime

  abbrev pub is_active_on : Calendar → String → String → ℕ → Active → Bool
  is_active_on calendar studentid reference date a =
      same a.referenceid reference
      && same a.studentid studentid
      && leb (calendar.today date) a.created_at
      && leb a.created_at (calendar.tomorrow date)

  unfoldable pub plan_attempt : {N : Type 0} → List Attempt → Progress N → Plan
  plan_attempt rows progress = record {
    tried = has_tried same progress.studentid progress.reference rows;
    oldpoints = get_old_points same progress.studentid progress.reference progress.points rows;
    stale = false;
  }

  abbrev pub is_later : ℕ → Option Attempt → Bool
  is_later starttime none = false
  is_later starttime (some newest) = ltb starttime newest.starttime

  unfoldable pub plan_quiz : {N : Type 0} → Bool → List Attempt → Progress N → Plan
  plan_quiz passrule rows progress = record {
    tried = has_tried same progress.studentid progress.reference rows;
    oldpoints = get_old_points same progress.studentid progress.reference progress.points rows;
    stale =
        passrule
        && not progress.ispass
        && is_later progress.starttime
            (get_newest_attempt same progress.studentid progress.reference rows);
  }

  -- The points of a stored pass (updatePracticePoints, updateQuizPoints, updateLevelQuizPoints).
  unfoldable pub update_points :
      Config → Bool → String → String → ℕ → ℕ → List Attempt → List Attempt
  unfolding change
  update_points config gated studentid reference points fullpoints =
      change (is_counted_pass same config gated studentid reference)
        (λ a. record a { points = some points; fullpoints = fullpoints })

  module _ {N : Type 0} (calendar : Calendar) where
    unfoldable pub set_student_active : String → String → ℕ → ℕ → Store N → Store N
    set_student_active studentid reference kind date st =
        if any (is_active_on calendar studentid reference date) st.actives || is_empty studentid
        then st
        else record st {
          actives =
              st.actives
              ++ record {
                studentid = studentid;
                referenceid = reference;
                referencetype = kind;
                created_at = date;
              }
                ∷ [];
        }

    -- A new attempt: its rows, the reward if it earns one, the active marker, and the scores after the
    -- commit.
    unfoldable pub record_attempt :
        Attempt
        → List (GradedItem N)
        → ℕ
        → Bool
        → (Rewards → Rewards)
        → (Rewards → Rewards)
        → Store N
        → Store N
    unfolding insert set_student_active
    record_attempt a actualanswers kind is_earned reward score st =
        let stored = insert a actualanswers st in
        let earned = if is_earned then with_rewards reward stored else stored in
        with_rewards score
          (set_student_active a.studentid a.studentprogressreferenceid kind a.starttime earned)

  module _ {N : Type 0} (content : Content) (calendar : Calendar) where
    -- The transaction with `findOrCreate`, and the recovery from the race; `kind` is the code of the
    -- active marker, `scores` what the attempt adds to the lesson's.
    unfoldable pub find_or_create :
        ResultContainer
        → ℕ
        → ℕ
        → String
        → String
        → Plan
        → Luck
        → Progress N
        → Store N
        → Result Thrown (Store N)
    unfolding attempt_of record_attempt set_student_active update_user_reward add_student_scores
    find_or_create type kind scores id lessonid plan broken progress st = err database_error
    find_or_create type kind scores id lessonid plan raced progress st =
        elim (find (has_key progress.studentid progress.reference progress.starttime) st.attempts) [
          | none ↦ err unique_constraint_error
          | some existing ↦ ok st
        ]
    find_or_create type kind scores id lessonid plan fine progress st =
        elim (find (has_key progress.studentid progress.reference progress.starttime) st.attempts) [
          | some existing ↦ ok (
              set_student_active calendar progress.studentid progress.reference kind
                progress.starttime st)
          | none ↦ ok (
              record_attempt calendar (attempt_of id type scores progress) progress.actualanswers
                kind (earns plan)
                (update_user_reward same content progress.studentid lessonid progress.points
                  plan.oldpoints progress.starttime)
                (add_student_scores same content progress.studentid lessonid progress.starttime
                  scores)
                st)
        ]

    unfoldable pub create_lesson_practice_progress :
        String → String → Plan → Luck → Progress N → Store N → Result Thrown (Store N)
    unfolding find_or_create
    create_lesson_practice_progress id lessonid = find_or_create lessonpractice 2 0 id lessonid

    unfoldable pub create_lesson_quiz_progress :
        String → String → Plan → Luck → Progress N → Store N → Result Thrown (Store N)
    unfolding find_or_create
    create_lesson_quiz_progress id lessonid plan luck progress =
        find_or_create lessonquiz 3 (calculate_score progress.passpercentage) id lessonid plan luck
          progress
