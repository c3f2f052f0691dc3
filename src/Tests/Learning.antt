-- ===== src/Tests/Learning.antt =====
-- Reports on a learning item at concrete inputs.
use edtech_lms_rpi_api.Prelude.{
  ℕ, ◌≡◌, refl, ◌==◌, Bool, true, false, none, some, [], ◌∷◌, any, if◌then◌else◌, err,
}
use edtech_lms_rpi_api.Learning.{
  LearningItem, Report, LearningStore, no_content_length, update_learning_progress,
}
use edtech_lms_rpi_api.Learning.Once.{paid, paid_once}
use edtech_lms_rpi_api.Tests.Rewards.{content}
use edtech_lms_rpi_api.Tests.Results.{calendar, empty_store}

abbrev item : LearningItem
item = record { lessonlearningid = "i1"; lessonid = "l1"; points = 5 }

abbrev report : Bool → Report
report ended = record { content_length = 0; time = 3; ended = ended; date = 1 }

abbrev before : LearningStore ℕ
before = record { learning = []; rest = empty_store }

-- A report on an item without media that has not ended is refused.
refused_run :
    update_learning_progress
      (λ a b. a == b)
      content
      calendar
      (some item)
      (some "s")
      "s"
      (report false)
      false
      before
    ≡ err no_content_length
unfolding update_learning_progress
refused_run = refl

paid_once_example :
    paid "s" item none (report false ∷ report true ∷ report true ∷ [])
    ≡ (if any (λ r. r.ended) (report false ∷ report true ∷ report true ∷ []) then 5 else 0)
paid_once_example = paid_once "s" item none (report false ∷ report true ∷ report true ∷ []) tt
