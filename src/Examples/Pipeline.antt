-- ===== src/Examples/Pipeline.antt =====
-- The theorems on the steps of `run_once` and on the packet filter, on samples.
use pondsecndr.Prelude.{
  ◌≡◌, refl, false, not, ◌&&◌, ◌||◌, List, [], ◌∷◌, none, some, length, contains, lower, is_in,
}
use pondsecndr.Prelude.Int.{pos}
use pondsecndr.Config.{PondSecConfig}
use pondsecndr.Response.Pf.{
  Shell, completed, table_op, pfctl_result, should_fallback, configctl_table_op,
}
use pondsecndr.Response.Pf.Fallback.{Answered, table_op-Answered}
use pondsecndr.Service.Pipeline.{
  Event, default_ids, ai_detector_ids, enabled_detectors, detectors_to_run,
}
use pondsecndr.Service.Pipeline.Choice.{enabled_detectors_iff}
use pondsecndr.Samples

enabled_detectors_iff_example :
    (is_in "pondsec.beaconing" (enabled_detectors Samples.config false).0
      ≡ is_in "pondsec.beaconing" default_ids
        && (not (is_in "pondsec.beaconing" ai_detector_ids)
            || Samples.config.detection.machine_learning && not false))
    × (is_in "pondsec.beaconing" (enabled_detectors Samples.config false).1
        ≡ is_in "pondsec.beaconing" default_ids
          && not (is_in "pondsec.beaconing" (enabled_detectors Samples.config false).0))
    × (is_in "pondsec.beaconing" (detectors_to_run Samples.config false)
        ≡ is_in "pondsec.beaconing" (enabled_detectors Samples.config false).0 && not false)
enabled_detectors_iff_example = enabled_detectors_iff Samples.config false "pondsec.beaconing"

abbrev events : List Event
events =
    record { event_id = "a"; interface = some "igb0"; direction = "in" }
    ∷ record { event_id = "b"; interface = none; direction = "out" }
    ∷ []

abbrev short_queue : PondSecConfig
short_queue = record Samples.config { max_queue_length = 0 }

-- Of an empty history the command is denied, then it succeeds.
abbrev denying : Shell
denying = record Samples.shell {
  runner = λ ran command. elim ran [
    | [] ↦ completed (pos 1) "" "pfctl: Permission denied"
    | _ ∷ _ ↦ completed (pos 0) "added" ""
  ];
}

table_op-Answered_example :
    Answered Samples.floats Samples.texts denying Samples.enforcer "add" "203.0.113.9" []
      (table_op Samples.floats Samples.texts denying Samples.enforcer "add" "203.0.113.9" [])
table_op-Answered_example =
    table_op-Answered Samples.floats Samples.texts denying Samples.enforcer "add" "203.0.113.9" []

-- The denied command is followed by configctl.
falls_back :
    length (table_op Samples.floats Samples.texts denying Samples.enforcer "add" "203.0.113.9" []).1
    ≡ 2
unfolding table_op pfctl_result should_fallback configctl_table_op contains lower
falls_back = refl
