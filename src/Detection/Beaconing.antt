-- ===== src/Detection/Beaconing.antt =====
-- BeaconingDetector of detection/detectors.py: contacts at regular intervals.
use pondsecndr.Prelude.{
  ℕ, String, ◌||◌, List, [], ◌∷◌, ◌++◌, Option, none, some, length, ltb, if◌then◌else◌,
}
use pondsecndr.Prelude.Int.{pos}
use pondsecndr.Python.Float.{Float, float_min, float_max}
use pondsecndr.Python.Value.{Value, null, float, arr}
use pondsecndr.Schema.{Event}
use pondsecndr.Detection.{Detection, Tools}
use pondsecndr.Detection.Explain.{dict, items}
use pondsecndr.Detection.Make.{Finding, make_detection}
use pondsecndr.Detection.Groups.{Key, Groups, text_key, number_key, pair_key, option_key}
use pondsecndr.Detection.Scans.{nonempty, threshold, number}

-- `by_tuple[key].append(moment)`: the group is made before a moment that cannot be read is given up.
unfoldable pub append_to_group {ℓ κ} :
    {K : Type ℓ} {V : Type κ} ⦃k : Key K⦄ → K → List V → Groups K V → Groups K V
append_to_group key values [] = (key, values) ∷ []
append_to_group ⦃k⦄ key values ((other, old) ∷ groups) =
    if k.eqb other key
    then (other, old ++ values) ∷ groups
    else (other, old) ∷ append_to_group key values groups

abbrev port_value : Option ℕ → Value
port_value none = null
port_value (some port) = number port

module _ (tools : Tools) where
  -- The moments of a list, none or one of them.
  unfoldable pub moments : Option Float → List Float
  moments none = []
  moments (some t) = t ∷ []

  unfoldable pub add_contact :
      (src dst : Option String) (port : Option ℕ)
      → Option Float
      → Groups (String × (String × Option ℕ)) Float
      → Groups (String × (String × Option ℕ)) Float
  unfolding append_to_group moments
  add_contact (some src) (some dst) port t groups =
      append_to_group (src, (dst, port)) (moments t) groups
  add_contact _ _ port t groups = groups

  unfoldable pub contacts_from :
      Groups (String × (String × Option ℕ)) Float
      → List Event
      → Groups (String × (String × Option ℕ)) Float
  unfolding add_contact nonempty
  contacts_from groups [] = groups
  contacts_from groups (e ∷ events) =
      contacts_from
        (add_contact (nonempty e.source_ip) (nonempty e.destination_ip) e.destination_port
          (tools.parse_time e.timestamp) groups)
        events

  -- `timestamps.sort()`
  unfoldable pub insert_moment : Float → List Float → List Float
  insert_moment t [] = t ∷ []
  insert_moment t (u ∷ us) = if tools.floats.lt u t then u ∷ insert_moment t us else t ∷ u ∷ us

  unfoldable pub sort_moments : List Float → List Float
  unfolding insert_moment
  sort_moments [] = []
  sort_moments (t ∷ ts) = insert_moment t (sort_moments ts)

  -- `[b - a for a, b in zip(timestamps, timestamps[1:])]`
  unfoldable pub intervals : List Float → List Float
  intervals [] = []
  intervals (a ∷ []) = []
  intervals (a ∷ b ∷ rest) = tools.sub b a ∷ intervals (b ∷ rest)

  unfoldable pub beaconing_finding :
      String → String → Option ℕ → (connections : ℕ) (avg spread periodicity : Float) → Finding
  beaconing_finding src dst port connections avg spread periodicity = record {
    detector_id = "pondsec.beaconing";
    category = "command_and_control";
    title = "Possible command-and-control beaconing";
    description = "Connections recur at regular intervals to the same destination.";
    source_ip = some src;
    destination_ip = some dst;
    severity = pos 8;
    confidence = float_min tools.floats (tools.floats.decimal 96 2) (
        tools.floats.add (tools.floats.decimal 6 1)
          (tools.floats.div periodicity (tools.floats.of_int (pos 3))));
    anomaly_score = periodicity;
    evidence = dict (
        ("connections", number connections)
        ∷ ("average_interval_seconds", float (tools.floats.round avg 2))
        ∷ ("interval_stddev", float (tools.floats.round spread 2))
        ∷ ("port", port_value port)
        ∷ ("periodicity", float (tools.floats.round periodicity 4))
        ∷ (
          "thresholds",
          arr (
              items (
                threshold "connections" ">=" (number 5) (number connections)
                ∷ threshold "average_interval_seconds" ">=" (number 15)
                    (float (tools.floats.round avg 2))
                ∷ threshold "periodicity" ">=" (float (tools.floats.decimal 85 2))
                    (float (tools.floats.round periodicity 4))
                ∷ [])),
        )
        ∷ []);
    recommended_action = "investigate";
    model_version = none;
  }

  -- `max(0.0, 1.0 - (spread / avg))`
  unfoldable pub periodicity_of : (avg spread : Float) → Float
  periodicity_of avg spread =
      float_max tools.floats (tools.floats.decimal 0 0)
        (tools.sub (tools.floats.of_int (pos 1)) (tools.floats.div spread avg))

  -- The tests of a group, of its number of contacts and the statistics of their intervals.
  unfoldable pub beaconing_report :
      String
      → String
      → Option ℕ
      → (connections : ℕ) (avg spread periodicity : Float) → List Detection
  unfolding beaconing_finding
  beaconing_report src dst port connections avg spread periodicity =
      if ltb connections 5
      then []
      else if tools.le avg (tools.floats.of_int (pos 0))
          || tools.floats.lt avg (tools.floats.of_int (pos 15))
      then []
      else if tools.le (tools.floats.decimal 85 2) periodicity
      then make_detection tools (beaconing_finding src dst port connections avg spread periodicity)
        ∷ []
      else []

  unfoldable pub beaconing_group : (String × (String × Option ℕ)) × List Float → List Detection
  unfolding sort_moments intervals periodicity_of beaconing_report
  beaconing_group ((src, (dst, port)), timestamps) =
      let steps = intervals (sort_moments timestamps) in
      let avg = tools.mean steps in
      let spread = tools.pstdev steps in
      beaconing_report src dst port (length timestamps) avg spread (periodicity_of avg spread)

  unfoldable pub report_groups : Groups (String × (String × Option ℕ)) Float → List Detection
  unfolding beaconing_group
  report_groups [] = []
  report_groups (group ∷ groups) = beaconing_group group ++ report_groups groups

  unfoldable pub detect_beaconing : List Event → List Detection
  unfolding contacts_from report_groups
  detect_beaconing events = report_groups (contacts_from [] events)
