-- ===== src/Correlation/Risk.antt =====
-- risk.py: the score of a group of detections, and the severity that it stands for.
pub mod Bounds
use pondsecndr.Prelude.{
  ℕ, ◌*◌, ◌+◌, min, String, Bool, List, [], ◌∷◌, ◌++◌, Option, map, any, length, leb, str_eq,
  sorted_set, if◌then◌else◌, max,
}
use pondsecndr.Prelude.Int.{ℤ, pos, ◌+ℤ◌, max_ℤ, min_ℤ}
use pondsecndr.Python.Float.{Float, Floats, float_max, or_zero}
use pondsecndr.Config.{when}
use pondsecndr.Detection.{Detection}

pub record Factor : Type 0 where
  pub name : String
  pub value : ℤ

abbrev factor : String → ℤ → Factor
factor name value = record { name = name; value = value }

-- `max` over a list that is not empty.
unfoldable pub max_severity : List Detection → ℕ
max_severity [] = 0
max_severity (d ∷ ds) = max d.severity (max_severity ds)

unfoldable pub max_float : Floats → Float → List Float → Float
max_float floats x [] = x
max_float floats x (y ∷ ys) = max_float floats (float_max floats x y) ys

unfoldable pub sum_ℤ : List Factor → ℤ
sum_ℤ [] = pos 0
sum_ℤ (f ∷ fs) = f.value +ℤ sum_ℤ fs

unfoldable pub has_category : String → List Detection → Bool
has_category category ds = any (λ d. str_eq d.category category) ds

module _ (floats : Floats) where
  unfoldable pub anomaly_of : Detection → Float
  anomaly_of d = or_zero floats d.anomaly_score

  unfoldable pub risk_factors : Detection → List Detection → List Factor
  unfolding max_severity max_float has_category anomaly_of
  risk_factors d ds =
      let items = d ∷ ds in
      let avg_confidence =
        floats.div (floats.sum (map (λ i. i.confidence) items))
          (floats.of_int (pos (length items))) in
      let max_anomaly = max_float floats (anomaly_of d) (map anomaly_of ds) in
      let detector_count = length (sorted_set (map (λ i. i.detector_id) items)) in
      factor "severity" (pos (max_severity items * 5))
      ∷ factor "confidence" (floats.trunc (floats.mul avg_confidence (floats.of_int (pos 20))))
      ∷ factor "anomaly_score" (floats.trunc (floats.mul max_anomaly (floats.of_int (pos 15))))
      ∷ factor "number_of_detectors" (pos (min 15 (detector_count * 5)))
      ∷ factor "number_of_events" (pos (min 15 (length items * 3)))
      ∷ (when (has_category "lateral_movement" items) (factor "lateral_movement" (pos 15))
          ++ (when (has_category "signature" items) (factor "suricata_alert" (pos 12))
              ++ when (has_category "exfiltration" items) (factor "data_volume" (pos 15))))

  unfoldable pub score_detection_group : List Detection → ℤ × List Factor
  unfolding risk_factors sum_ℤ
  score_detection_group [] = (pos 0, [])
  score_detection_group (d ∷ ds) =
      let factors = risk_factors d ds in (max_ℤ (pos 1) (min_ℤ (pos 100) (sum_ℤ factors)), factors)

unfoldable pub severity_from_risk : ℤ → ℕ
severity_from_risk (pos risk_score) =
    if leb 90 risk_score
    then 10
    else if leb 75 risk_score
    then 8
    else if leb 50 risk_score
    then 6
    else 4
severity_from_risk _ = 4
