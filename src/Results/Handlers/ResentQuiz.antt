-- ===== src/Results/Handlers/ResentQuiz.antt =====
-- A lesson quiz that is submitted twice (src/modules/result/result.controller.ts).
use edtech_lms_rpi_api.Prelude.{ℕ, Bool, Option, List, String, if◌then◌else◌}
use edtech_lms_rpi_api.Js.{Js}
use edtech_lms_rpi_api.Score.{Tables}
use edtech_lms_rpi_api.Rewards.{Content}
use edtech_lms_rpi_api.Results.{Attempt, Config, get_old_points, get_pass_old_points}
use edtech_lms_rpi_api.Results.Save.{Calendar}
use edtech_lms_rpi_api.Results.Create.{Activity}
use edtech_lms_rpi_api.Results.Newest.{IsEquality}
use edtech_lms_rpi_api.Results.Handlers.{Activities}

module _ (js : Js) (same : String → String → Bool) (db : Tables js.Num) (config : Config)
    (content : Content) (calendar : Calendar) (activities : Activities)
    (equal : IsEquality same) where
  open js use {Num}

  abbrev quiz_old : Bool → String → Activity → List Attempt → Option ℕ
  quiz_old passrule studentid activity rows =
      if passrule
      then get_pass_old_points same config studentid activity.id activity.points rows
      else get_old_points same studentid activity.id activity.points rows
