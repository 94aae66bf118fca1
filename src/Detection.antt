-- ===== src/Detection.antt =====
-- detection/base.py: what a detector makes, and what the detectors are given. The arithmetic of
-- floats, the statistics of the standard library and uuid5 are parameters.
pub mod Explain
pub mod Make
pub mod Groups
pub mod Scans
pub mod Windows
pub mod Beaconing
pub mod Imported
pub mod Run
use pondsecndr.Prelude.{ℕ, String, Bool, List, Option}
use pondsecndr.Prelude.Int.{ℤ}
use pondsecndr.Python.Float.{Float, Floats}
use pondsecndr.Python.Ipaddress.{Ipaddress}
use pondsecndr.Python.Value.{Value, Fields, Texts}

-- What `make_detection` returns.
pub record Detection : Type 0 where
  pub timestamp : String
  pub detection_id : String
  pub detector_id : String
  pub category : String
  pub title : String
  pub description : String
  pub severity : ℕ
  pub confidence : Float
  pub anomaly_score : Float
  pub source_ip : Option String
  pub destination_ip : Option String
  pub evidence : Value
  pub recommended_action : String
  pub model_version : Option String

-- An item of the features: its `source_ip`, which is always there, and the dictionary.
pub record Feature : Type 0 where
  pub source_ip : String
  pub fields : Fields

pub record Tools : Type 0 where
  pub floats : Floats
  pub texts : Texts
  pub ipaddress : Ipaddress
  -- `x <= y`, `x - y`, and `a / b` of integers.
  pub le : Float → Float → Bool
  pub sub : Float → Float → Float
  pub true_div : ℤ → ℤ → Float
  -- `statistics.mean` and `statistics.pstdev`, of a list that is not empty.
  pub mean : List Float → Float
  pub pstdev : List Float → Float
  -- `datetime.fromisoformat(s.replace("Z", "+00:00")).timestamp()`, `none` for `ValueError`.
  pub parse_time : String → Option Float
  -- The ISO text of the present moment.
  pub now : String
  -- `uuid5` of a text that names its arguments.
  pub detection_uuid :
      (detector_id : String) (source_ip destination_ip : Option String) (title : String)
      (evidence : Fields)
      → String
