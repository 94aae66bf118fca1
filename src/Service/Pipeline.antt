-- ===== src/Service/Pipeline.antt =====
-- `_filter_events`, `_apply_queue_backpressure`, `_enabled_detectors` and `_baseline_skip_sources`
-- of service.py.
pub mod Choice
use pondsecndr.Prelude.{
  ℕ, ◌-◌, ◌*◌, max, String, Bool, true, false, not, ◌&&◌, ◌||◌, List, [], ◌∷◌, ◌++◌, Option, none,
  some, map, keep, take, length, leb, str_eq, is_empty, is_in, if◌then◌else◌,
}
use pondsecndr.Config.{PondSecConfig}
use pondsecndr.Detection.Run.{detector_id, default_detectors}
use pondsecndr.Storage.{Store}

-- What the filter reads of an event.
pub record Event : Type 0 where
  pub event_id : String
  pub interface : Option String
  pub direction : String

-- The ids of `default_detectors`.
abbrev pub default_ids : List String
default_ids = map detector_id default_detectors

abbrev pub ai_detector_ids : List String
ai_detector_ids = "pondsec.host_baseline_anomaly" ∷ "pondsec.pretrained_ids_model" ∷ []

module _ (config : PondSecConfig) where
  unfoldable pub included : List String
  included = config.interfaces.monitored ++ config.interfaces.monitored_devices

  unfoldable pub excluded : List String
  excluded = config.interfaces.excluded_interfaces ++ config.interfaces.excluded_devices

  unfoldable pub is_nonempty : List String → Bool
  is_nonempty [] = false
  is_nonempty (x ∷ xs) = true

  unfoldable pub interface_passes : Option String → Bool
  interface_passes none = true
  interface_passes (some interface) =
      if is_empty interface
      then true
      else not (is_in interface excluded)
        && not (is_nonempty included && not (is_in interface included))

  unfoldable pub event_passes : Event → Bool
  event_passes e =
      interface_passes e.interface
      && (str_eq config.interfaces.direction "both"
          || str_eq e.direction config.interfaces.direction)

  unfoldable pub filter_events : List Event → List Event
  filter_events [] = []
  filter_events (e ∷ events) =
      if event_passes e then e ∷ filter_events events else filter_events events

  unfoldable pub apply_queue_backpressure : List Event → List Event × ℕ
  apply_queue_backpressure events =
      let limit = max 1 config.max_queue_length in
      if leb (length events) limit then (events, 0) else (take limit events, length events - limit)

  -- A detector that learns is held back without machine learning, and while learning is active.
  unfoldable pub is_suppressed : (learning_active : Bool) → String → Bool
  is_suppressed learning_active detector =
      is_in detector ai_detector_ids && not config.detection.machine_learning
      || is_in detector ai_detector_ids && learning_active

  unfoldable pub enabled_detectors : (learning_active : Bool) → List String × List String
  enabled_detectors learning_active = (
    keep (λ d. not (is_suppressed learning_active d)) default_ids,
    keep (is_suppressed learning_active) default_ids,
  )

  -- The detectors that `run_once` runs: none while learning is active.
  unfoldable pub detectors_to_run : (learning_active : Bool) → List String
  detectors_to_run true = []
  detectors_to_run false = (enabled_detectors false).0

  abbrev microseconds_per_day : ℕ
  microseconds_per_day = 86400 * 1000000

  -- `false_positive_feedback_sources`
  unfoldable pub feedback_sources : (now : ℕ) → Store → List String
  feedback_sources now store =
      map (λ f. f.source_ip)
        (keep
          (λ f.
            leb (now - max 1 config.detection.false_positive_feedback_days * microseconds_per_day)
              f.created_at)
          store.feedback)

  -- `_baseline_skip_sources`, of the sources that the detections name.
  unfoldable pub baseline_skip_sources : (now : ℕ) (anomalous : List String) → Store → List String
  baseline_skip_sources now anomalous store =
      let forgiven = feedback_sources now store in keep (λ s. not (is_in s forgiven)) anomalous
