-- ===== src/Detection/Imported.antt =====
-- The detectors of detection/detectors.py that take over what another program found:
-- SuricataAlertAdapter and PretrainedIdsModelDetector.
use pondsecndr.Prelude.{
  String, Bool, true, ◌&&◌, ◌||◌, ◌+◌, List, [], ◌∷◌, Option, none, some, str_eq, if◌then◌else◌,
}
use pondsecndr.Prelude.Int.{ℤ, pos, pos_part, neg_part, sub_ℕ, max_ℤ, min_ℤ}
use pondsecndr.Python.Float.{Float, float_min, float_max}
use pondsecndr.Python.Value.{Value, bool, int, float, str, arr, get, truthy, text_or, to_int}
use pondsecndr.Python.Result.{Result, ok, ◌>>=◌}
use pondsecndr.Schema.{Event}
use pondsecndr.Detection.{Detection, Tools}
use pondsecndr.Detection.Explain.{dict, items}
use pondsecndr.Detection.Make.{Finding, make_detection}
use pondsecndr.Detection.Scans.{threshold}

-- `max(4, min(10, 11 - severity))`
unfoldable pub alert_severity : ℤ → ℤ
alert_severity severity =
    max_ℤ (pos 4) (min_ℤ (pos 10) (sub_ℕ (11 + neg_part severity) (pos_part severity)))

-- An item that `score_features` of the model runtime returns.
pub record Score : Type 0 where
  pub source_ip : String
  pub attack_probability : Float
  pub attack_class_probability : Float
  pub benign_probability : Float
  pub attack_class : Value
  pub model_id : Value
  pub model_version : String
  pub model_checksum : Value
  pub runtime_version : Value
  pub artifact_path : Value
  pub feature_values : Value

module _ (tools : Tools) where
  unfoldable pub suricata_finding : Event → (is_drop : Bool) (severity : ℤ) → Finding
  unfolding alert_severity
  suricata_finding e is_drop severity = record {
    detector_id = if is_drop then "pondsec.suricata_drop" else "pondsec.suricata_alert";
    category = "signature";
    title = text_or tools.floats tools.texts (get e.metadata "signature") "Suricata alert";
    description =
        if is_drop
        then "Known dropped traffic imported from Suricata EVE."
        else "Known signature alert imported from Suricata EVE.";
    source_ip = e.source_ip;
    destination_ip = e.destination_ip;
    severity = alert_severity severity;
    confidence = tools.floats.decimal 9 1;
    anomaly_score = tools.floats.decimal 0 0;
    evidence = dict (
        ("signature_id", get e.metadata "signature_id")
        ∷ ("category", get e.metadata "category")
        ∷ ("suricata_severity", int severity)
        ∷ ("suricata_action", get e.metadata "action")
        ∷ ("drop_reason", get e.metadata "drop_reason")
        ∷ (
          "thresholds",
          arr (
              items (
                threshold "signature_id" "present" (str "present") (get e.metadata "signature_id")
                ∷ [])),
        )
        ∷ []);
    recommended_action = "investigate";
    model_version = none;
  }

  -- `int(metadata.get("severity") or 3)`
  unfoldable pub suricata_severity : Value → Result ℤ
  suricata_severity value =
      if truthy tools.floats tools.texts value
      then to_int tools.floats tools.texts value
      else ok (pos 3)

  unfoldable pub suricata_item : Event → Result (List Detection)
  unfolding suricata_finding suricata_severity
  suricata_item e =
      if (str_eq e.event_type "alert" || str_eq e.event_type "drop")
        && truthy tools.floats tools.texts (get e.metadata "signature_id")
      then (suricata_severity (get e.metadata "severity") >>= λ severity.
          ok (make_detection tools (suricata_finding e (str_eq e.event_type "drop") severity) ∷ []))
      else ok []

  unfoldable pub model_finding : Score → Finding
  model_finding s = record {
    detector_id = "pondsec.pretrained_ids_model";
    category = "machine_learning";
    title = "Pretrained AI model classified traffic as attack";
    description =
        "The verified CICIDS2017 CNN-1D pretrained model classified the flow feature vector as malicious.";
    source_ip = some s.source_ip;
    destination_ip = none;
    severity = if tools.le (tools.floats.decimal 85 2) s.attack_probability then pos 9 else pos 7;
    confidence =
        float_max tools.floats s.attack_probability
          (float_min tools.floats (tools.floats.decimal 95 2) s.attack_class_probability);
    anomaly_score = s.attack_probability;
    evidence = dict (
        ("model_id", s.model_id)
        ∷ ("model_version", str s.model_version)
        ∷ ("model_checksum", s.model_checksum)
        ∷ ("runtime_version", s.runtime_version)
        ∷ ("artifact_path", s.artifact_path)
        ∷ ("feature_schema_version", str "1")
        ∷ ("attack_probability", float (tools.floats.round s.attack_probability 6))
        ∷ ("benign_probability", float (tools.floats.round s.benign_probability 6))
        ∷ ("attack_class", s.attack_class)
        ∷ ("attack_class_probability", float (tools.floats.round s.attack_class_probability 6))
        ∷ ("feature_values", s.feature_values)
        ∷ ("pretrained_model", bool true)
        ∷ (
          "thresholds",
          arr (
              items (
                threshold "attack_probability" ">=" (float (tools.floats.decimal 55 2))
                  (float (tools.floats.round s.attack_probability 6))
                ∷ [])),
        )
        ∷ []);
    recommended_action = "block";
    model_version = some s.model_version;
  }

  unfoldable pub detect_scores : List Score → List Detection
  unfolding model_finding
  detect_scores [] = []
  detect_scores (s ∷ scores) =
      if tools.floats.lt s.attack_probability (tools.floats.decimal 55 2)
      then detect_scores scores
      else make_detection tools (model_finding s) ∷ detect_scores scores

  -- Without the runtime there are no scores.
  unfoldable pub detect_model : Option (List Score) → List Detection
  unfolding detect_scores
  detect_model none = []
  detect_model (some scores) = detect_scores scores
