-- ===== src/Lib.antt =====
-- A verification library of the server that grades and scores the learners' answers, and decides
-- whose content, school and learners a request may touch.
--
-- The program and its parts
--
-- A learner's client submits the items of a practice, a quiz, a level quiz or a baseline. Each
-- item has the client's own claim and, in the newer protocol, the answer itself. The server looks
-- up the active questions of the activity (src/business/quizscore.ts,
-- src/business/practicescore.ts), grades each answer (src/business/grading/), decides per item
-- whether the claim or its own verdict counts and which item of a question counts
-- (src/business/gradesubmission.ts), and scores those items against the active questions (the two
-- score files again). The handlers (src/modules/result/result.controller.ts) turn the score into
-- an attempt, whose save (src/business/result.business.ts) writes the attempt and its answers
-- once, and gives the learner's lesson, level and grade their points and scores
-- (src/business/lesson.business.ts, by the rules of src/business/progress-rules.ts). Before any of
-- this a request has a token whose claims are checked (src/business/token-claims.ts), and content
-- is opened or listed only in the caller's scope (src/business/content-access.ts); a report has a
-- scope of its own (src/business/report-scope.ts). An organisation's content arrives as one
-- payload, which is checked whole before anything of it is written
-- (src/modules/import/organisation-content.validator.ts). Rosters bring rows that must belong to a
-- school (src/business/school-identity.ts) and name a curriculum (src/business/roster-refs.ts).
--
-- The files
--
-- Prelude and its children: names of the libraries passed on, tests on numbers, lists of texts as
--   the sets of the language, texts with `trim` and their length.
-- Js: values of the language (`unknown`), and the record of what the code uses of the runtime:
--   numbers, `JSON.parse`, `normalize` and `toLowerCase`.
-- Grading/Options (option.ts), Grading/Templates (templates.ts), Grading/Answer and Grading/Grade
--   (index.ts), Grading/Normalise (normalise.ts), Grading/Prototypes (prototypes.ts). Proofs:
--   Grading/Choices, Grading/Ordering, Grading/Parsing, Grading/Verdicts, Grading/Typed.
-- Submission: gradesubmission.ts. `grade_item` is the body of `items.map`; the map of first
--   positions is passed through `first_seen`. Proofs: Submission/Reference, Counted, Trust,
--   Claims.
-- Score: quizscore.ts and practicescore.ts; the four tables are an argument. Score/Container:
--   result-items.ts. Proofs: Score/Pass, Marks, Server, and at the end of Score/Container.
-- Progress: progress-rules.ts and lesson-quiz-pass.ts. Proof: Progress/Completed.
-- Rewards and Rewards/Rows: the rows that updateUserReward, updateLevelQuizReward,
--   addstudentscores and addstudentlevelquizscores of lesson.business.ts create and change.
--   Proofs: Rewards/Lessons, Gains.
-- Learning: updatelearningprogress of lesson.business.ts. Proof: Learning/Once.
-- Results, Results/Save, Results/Create: result.business.ts (and setstudentactive of
--   lesson.business.ts). `find_or_create` is the transaction that practices and lesson quizzes
--   share. Results/Graded and Results/Handlers: result.controller.ts; `progress_of` is the
--   handlers' `progress`. The unique index of the attempts is that of the migration
--   src/db/migrations/20260818090000-unique-studentprogress-submission.ts; it is taken to be in
--   place. Proofs: Results/Steps, Newest, Resent, Results/Handlers/Verified, Resent,
--   ResentQuiz.
-- Roster: `withCurriculumLists` of roster-refs.ts (src/business/). Proofs: Roster/Usable.
-- School and School/Import: school-identity.ts; the two maps of the import are passed on as lists.
--   Proofs: School/Names, School/Import/Uncached.
-- Access and Access/Visible: content-access.ts. Access/Requests: token-claims.ts and
--   report-scope.ts, whose filters are in Access/Requests/Filters. Proofs: Access/Levels, Scope,
--   Lists, Access/Requests/Claims, Reports, Named.
-- ContentImport: the tables of organisation-content.validator.ts (src/modules/import/).
--   ContentImport/Rows: the checks of rows, references and lists. ContentImport/Media:
--   media-library.ts and learning-items.ts (src/constants/) and the checks of items, documents and
--   links. ContentImport/Translations: content-translations.ts (src/constants/) and the checks of
--   translations. ContentImport/Validate: the whole check; a problem is its field, what it says
--   and how many rows are at fault. Proofs: ContentImport/Sound, Closed.
-- Provisioning: args.ts (src/provisioning/). Provisioning/Parse: the loop over the arguments;
--   Provisioning/Options: what they must be. Proof: Provisioning/Print.
-- Tests: runs of the definitions at concrete inputs, and the theorems that have hypotheses at
--   inputs that meet them.
--
-- A function keeps the name of the source's in snake case: `gradeSubmissionItems` is
-- `grade_submission_items`, `canAccessContent` is `can_access_content`.
--
-- Choices
--
-- Every loop is a recursion on the list it walks, so there is no fuel and no bound on the input.
-- An asynchronous function is the function of what its queries return. A query is a parameter
-- (SchoolDb, ContentDb, ClaimsDb, FilterDb) or, for the scorers, a filter of the table that is
-- given; where a proof needs what a query returns, it is a named record of hypotheses
-- (IsOwnedQuery, IsListQuery). Results that throw are values of `Result`. A save of a result is
-- two operations: it reads a plan and then writes, and what is stored may differ between the two,
-- which covers requests that interleave. A transaction that throws leaves what is stored as it
-- was; `Luck` says whether it fails or loses a race. Ids, times and the calendar are arguments. A
-- value that is absent, NULL or no text is `none`; a NULL number of points in the rows of rewards
-- is 0, as the runtime's arithmetic reads it. Percentages are in hundredths; with fewer than 4000 active questions their
-- rounding agrees with the runtime's.
--
-- Not modelled
--
-- The table of daily points (updateuserdailypoints) and the writes after a commit that fail; the
-- ids of level, grade and curriculum that a progress row repeats; what the database makes of a
-- percentage that is no number; a level quiz or baseline without a start time. The write of a
-- checked content payload. The checks that a roster's classes and progress are held. Logging; the text of error messages; the other controllers, guards,
-- modules, migrations and data models; the business files that are queries and row updates;
-- provisioning and operator scripts. The comparison that the database makes of two ids is a
-- parameter where a proof depends on it.
pub mod Prelude
pub mod Js
pub mod Grading
pub mod Submission
pub mod Score
pub mod Tests
pub mod School
pub mod Access
pub mod Progress
pub mod Rewards
pub mod Roster
pub mod Results
pub mod Learning
pub mod Provisioning
pub mod ContentImport
