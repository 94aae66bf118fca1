-- ===== src/Detection/Make.antt =====
-- `make_detection` of detection/base.py.
use pondsecndr.Prelude.{ℕ, String, Option, if◌then◌else◌}
use pondsecndr.Prelude.Int.{ℤ, pos, pos_part, max_ℤ, min_ℤ}
use pondsecndr.Python.Float.{Float, float_max, float_min}
use pondsecndr.Python.Value.{Value, obj, Fields, end, field, has}
use pondsecndr.Detection.{Detection, Tools}
use pondsecndr.Detection.Explain.{build_explainability}

-- `d[key] = value` of a key that is not there.
unfoldable pub with_last : Fields → String → Value → Fields
with_last end key value = field key value end
with_last (field k v rest) key value = field k v (with_last rest key value)

-- `d.setdefault(key, value)`
unfoldable pub set_default : Fields → String → Value → Fields
unfolding with_last
set_default fields key value = if has fields key then fields else with_last fields key value

-- `int(max(1, min(10, severity)))`, which is positive.
unfoldable pub clamp_severity : ℤ → ℕ
clamp_severity severity = pos_part (max_ℤ (pos 1) (min_ℤ (pos 10) severity))

-- The arguments of a call.
pub record Finding : Type 0 where
  pub detector_id : String
  pub category : String
  pub title : String
  pub description : String
  pub source_ip : Option String
  pub destination_ip : Option String
  pub severity : ℤ
  pub confidence : Float
  pub anomaly_score : Float
  pub evidence : Fields
  pub recommended_action : String
  pub model_version : Option String

module _ (tools : Tools) where
  -- `round(max(0.0, min(1.0, x)), 4)`
  unfoldable pub unit_interval : Float → Float
  unit_interval x =
      tools.floats.round
        (float_max tools.floats (tools.floats.of_int (pos 0))
          (float_min tools.floats (tools.floats.of_int (pos 1)) x))
        4

  unfoldable pub make_detection : Finding → Detection
  unfolding set_default clamp_severity unit_interval
  make_detection f =
      let evidence = set_default f.evidence "explainability" (
        build_explainability tools.floats tools.texts f.category f.description f.evidence
          f.recommended_action) in
      record {
        timestamp = tools.now;
        detection_id =
            tools.detection_uuid f.detector_id f.source_ip f.destination_ip f.title evidence;
        detector_id = f.detector_id;
        category = f.category;
        title = f.title;
        description = f.description;
        severity = clamp_severity f.severity;
        confidence = unit_interval f.confidence;
        anomaly_score = unit_interval f.anomaly_score;
        source_ip = f.source_ip;
        destination_ip = f.destination_ip;
        evidence = obj evidence;
        recommended_action = f.recommended_action;
        model_version = f.model_version;
      }
