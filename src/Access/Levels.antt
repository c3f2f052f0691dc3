-- ===== src/Access/Levels.antt =====
-- What hangs only from levels that are switched off (src/business/content-access.ts).
use edtech_lms_rpi_api.Prelude.{
  ◌≡◌, refl, sym, ◌∙◌, ◌⊎◌, inl, inr, true, false, ◌||◌, Option, none, some, List, [], ◌∷◌, ◌++◌,
  map, String, arith, eq_iff, contains, set_of, contains-set_of, Bool-cases, Option-cases,
}
use edtech_lms_rpi_api.Js.{Js}
use edtech_lms_rpi_api.Access.{
  ContentKind, level, lesson, lessonlearning, lessonplan, lessonpractice, lessonquiz,
  lessonpracticequestion, lessonquizquestion, levelquizquestion, document, present, gather,
  linked_learnings, lessons_of_document, Token, ContentDb, column, usable, caller_of, is_on,
  status_of, curriculum_of_level, curriculum_of_lesson, curriculum_of_practice, curriculum_of_quiz,
  curricula_of, curriculum_ids_of,
}
use edtech_lms_rpi_api.Access.Visible.{can_access_content}

-- Every list that `f` gives for a member is empty.
gather-nil :
    (f : String → List String) (xs : List String)
    → ((x : String) → contains xs x ≡ true → f x ≡ [])
    → gather f xs ≡ []
unfolding contains
gather-nil f [] h = refl
gather-nil f (x ∷ xs) h =
    rw (h x (ground (arith, (eq_iff x x).1 refl)), gather-nil f xs (λ y k. h y (ground (arith, k))))
      refl

contains-present_append :
    (xs ys : List (Option String)) (a : String)
    → contains (present (map column (xs ++ ys))) a
      ≡ (contains (present (map column xs)) a || contains (present (map column ys)) a)
unfolding contains
contains-present_append [] ys a = refl
contains-present_append (x ∷ xs) ys a = elim (Option-cases (column x)) [
  | inl e ↦ rw e (contains-present_append xs ys a)
  | inr (v, e) ↦ rw e (ground (arith, contains-present_append xs ys a))
]

module _ (js : Js) (db : ContentDb js.Num) where
  -- A learning of the document, a learning that a link row of it names, or a plan with it stands
  -- in this lesson.
  pub data IsUsedIn (i j : String) : Type 0 where
    as_learning :
        contains (present (map column (db.learnings_of_document i))) j ≡ true → IsUsedIn i j
    as_link :
        contains
            (present (
              map column
                (linked_learnings js db (set_of (present (map column (db.links_of_document i)))))))
            j
          ≡ true
        → IsUsedIn i j
    as_plan : contains (present (map column (db.plans_of_document i))) j ≡ true → IsUsedIn i j

  -- The rows lead from the content of this kind and id to a level that is switched off or has no row;
  -- from a document, from every lesson that uses it.
  pub data IsSwitchedOff : ContentKind → String → Type 0 where
    level_off : (l : String) → is_on js (status_of js db l) ≡ false → IsSwitchedOff level l
    by_lesson :
        (i l : String)
        → column (db.lesson_row i) ≡ some l
        → IsSwitchedOff level l
        → IsSwitchedOff lesson i
    by_learning :
        (i j : String)
        → column (db.learning_row i) ≡ some j
        → IsSwitchedOff lesson j
        → IsSwitchedOff lessonlearning i
    by_plan :
        (i j : String)
        → column (db.plan_row i) ≡ some j
        → IsSwitchedOff lesson j
        → IsSwitchedOff lessonplan i
    by_practice :
        (i j : String)
        → column (db.practice_row i) ≡ some j
        → IsSwitchedOff lesson j
        → IsSwitchedOff lessonpractice i
    by_quiz :
        (i j : String)
        → column (db.quiz_row i) ≡ some j
        → IsSwitchedOff lesson j
        → IsSwitchedOff lessonquiz i
    by_practice_question :
        (i j : String)
        → column (db.practice_question_row i) ≡ some j
        → IsSwitchedOff lessonpractice j
        → IsSwitchedOff lessonpracticequestion i
    by_quiz_question :
        (i j : String)
        → column (db.quiz_question_row i) ≡ some j
        → IsSwitchedOff lessonquiz j
        → IsSwitchedOff lessonquizquestion i
    by_level_question :
        (i l : String)
        → column (db.level_question_row i) ≡ some l
        → IsSwitchedOff level l
        → IsSwitchedOff levelquizquestion i
    by_document :
        (i : String)
        → ((j : String) → IsUsedIn i j → IsSwitchedOff lesson j)
        → IsSwitchedOff document i

  level-off : (l : String) → IsSwitchedOff level l → curriculum_of_level js db true (some l) ≡ []
  unfolding curriculum_of_level
  level-off l (level_off _ off) = ground arith

  lesson-off : (i : String) → IsSwitchedOff lesson i → curriculum_of_lesson js db true (some i) ≡ []
  unfolding curriculum_of_lesson
  lesson-off i (by_lesson _ l e h) = rw e (level-off l h)

  -- A lesson of a document uses it.
  lessons_of_document-IsUsedIn :
      (i j : String) → contains (lessons_of_document js db i) j ≡ true → IsUsedIn i j
  lessons_of_document-IsUsedIn i j h =
      let links = set_of (present (map column (db.links_of_document i))) in
      let learnings = db.learnings_of_document i ++ linked_learnings js db links in
      let member =
        sym (contains-present_append learnings (db.plans_of_document i) j)
        ∙ sym (contains-set_of (present (map column (learnings ++ db.plans_of_document i))) j)
        ∙ h in
      let split =
        contains-present_append (db.learnings_of_document i) (linked_learnings js db links) j in
      elim (Bool-cases (contains (present (map column (db.plans_of_document i))) j)) [
        | inl plan ↦ as_plan plan
        | inr other ↦
            elim (Bool-cases (contains (present (map column (db.learnings_of_document i))) j)) [
              | inl learning ↦ as_learning learning
              | inr unlisted ↦ as_link (ground (arith, member, split, other, unlisted))
            ]
      ]

  usable-cases :
      (o : Option String) (i : String) → o ≡ some i → (usable o ≡ none) ⊎ (usable o ≡ some i)
  unfolding usable
  usable-cases o i e = rw e (ground arith)

  switched_off-nil :
      (kind : ContentKind) (i : String) → IsSwitchedOff kind i → curricula_of js db true kind i ≡ []
  unfolding curricula_of set_of
  switched_off-nil _ l (level_off _ off) = level-off l (level_off l off)
  switched_off-nil _ i (by_lesson _ l e h) = lesson-off i (by_lesson i l e h)
  switched_off-nil _ _ (by_learning i j e h) = rw e (lesson-off j h)
  switched_off-nil _ _ (by_plan i j e h) = rw e (lesson-off j h)
  switched_off-nil _ _ (by_practice i j e h) = rw e (lesson-off j h)
  switched_off-nil _ _ (by_quiz i j e h) = rw e (lesson-off j h)
  switched_off-nil _ _ (by_practice_question i j e h) =
      elim (usable-cases (column (db.practice_question_row i)) j e) [
        | inl none_left ↦ rw (none_left, curriculum_of_practice) refl
        | inr same ↦ rw (same, curriculum_of_practice) (switched_off-nil lessonpractice j h)
      ]
  switched_off-nil _ _ (by_quiz_question i j e h) =
      elim (usable-cases (column (db.quiz_question_row i)) j e) [
        | inl none_left ↦ rw (none_left, curriculum_of_quiz) refl
        | inr same ↦ rw (same, curriculum_of_quiz) (switched_off-nil lessonquiz j h)
      ]
  switched_off-nil _ _ (by_level_question i l e h) = rw e (level-off l h)
  switched_off-nil _ _ (by_document i h) =
      rw
        (gather-nil (λ j. curriculum_of_lesson js db true (some j)) (lessons_of_document js db i)
          (λ j k. lesson-off j (h j (lessons_of_document-IsUsedIn i j k))))
        refl

  -- Content that hangs only from levels that are switched off or have no row is refused to
  -- everyone: learners, staff, and requests without a user. That is such a level, its quiz
  -- questions, its lessons, their learnings, plans, practices and quizzes, the questions of these,
  -- and a document when each of the lessons whose learnings, linked learnings or plans use it is
  -- such a lesson.
  pub can_access_content-off :
      (user : Option Token) (kind : ContentKind) (i : String)
      → IsSwitchedOff kind i
      → can_access_content js db user kind (some i) ≡ false
  unfolding can_access_content curriculum_ids_of
  can_access_content-off user kind i h = elim (Option-cases (caller_of user)) [
    | inl gone ↦ rw (gone, can_access_content) refl
    | inr (caller, e) ↦ elim (usable-cases (some i) i refl) [
      | inl none_left ↦ rw (e, can_access_content) (rw (none_left, curriculum_ids_of) refl)
      | inr same ↦
          rw (e, can_access_content)
            (rw (same, curriculum_ids_of) (rw (switched_off-nil kind i h) refl))
    ]
  ]
