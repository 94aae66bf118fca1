-- ===== src/Correlation/Risk/Bounds.antt =====
-- The ranges of the scores of risk.py.
use pondsecndr.Prelude.{◌≤◌, arith, List, ◌∷◌}
use pondsecndr.Prelude.Int.{ℤ, pos, negsuc, ◌≤ℤ◌}
use pondsecndr.Python.Float.{Floats}
use pondsecndr.Detection.{Detection}
use pondsecndr.Correlation.Risk.{score_detection_group, severity_from_risk}

-- The score of any detections is from 1 to 100, whatever the floats are.
pub score_detection_group_bounds :
    (floats : Floats) (d : Detection) (ds : List Detection)
    → (pos 1 ≤ℤ (score_detection_group floats (d ∷ ds)).0)
      × ((score_detection_group floats (d ∷ ds)).0 ≤ℤ pos 100)
unfolding score_detection_group
score_detection_group_bounds floats d ds = ground arith

-- A higher risk has no lower severity, and a severity is from 4 to 10.
pub severity_from_risk_mono :
    (a b : ℤ)
    → a ≤ℤ b
    → (4 ≤ severity_from_risk a)
      × (severity_from_risk a ≤ severity_from_risk b)
      × (severity_from_risk b ≤ 10)
unfolding severity_from_risk
severity_from_risk_mono (pos a) (pos b) h = ground arith
severity_from_risk_mono (pos a) (negsuc b) h = ground arith
severity_from_risk_mono (negsuc a) (pos b) h = ground arith
severity_from_risk_mono (negsuc a) (negsuc b) h = ground arith
