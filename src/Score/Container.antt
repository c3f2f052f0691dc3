-- ===== src/Score/Container.antt =====
-- src/business/result-items.ts: the items of a result that answer questions of its container.
use edtech_lms_rpi_api.Prelude.{
  Bool, false, none, some, List, map, String, filter, contains, set_of,
}
use mathlib.Core.Option
use edtech_lms_rpi_api.Js.{Js}
use edtech_lms_rpi_api.Submission.{Item}
use edtech_lms_rpi_api.Score.{Tables, ResultContainer, table_of}

module _ {N : Type 0} (same : String → String → Bool) (db : Tables N) where
  -- The ids of all rows of the container, whatever their status.
  unfoldable pub container_question_ids : ResultContainer → String → List String
  container_question_ids kind containerid = set_of (
      map (λ r. r.questionid)
        (filter (λ r. same r.containerid containerid) (table_of same kind db)))

  abbrev pub answers_own : List String → Item N → Bool
  answers_own own item = elim item.id [ none ↦ false | some id ↦ contains own id ]

  unfoldable pub confine_to_container : ResultContainer → String → List (Item N) → List (Item N)
  unfolding container_question_ids
  confine_to_container kind containerid items =
      let own = container_question_ids kind containerid in
      filter (λ item. answers_own own item) items
