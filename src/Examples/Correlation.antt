-- ===== src/Examples/Correlation.antt =====
-- The theorems on correlation.py and risk.py, on two detections of one attack and an unrelated one.
use pondsecndr.Prelude.{◌≡◌, Bool, List, [], ◌∷◌, none, some, All, count_if, str_eq}
use pondsecndr.Python.Value.{null}
use pondsecndr.Detection.{Detection}
use pondsecndr.Correlation.Cases.{build_cases, effective_window}
use pondsecndr.Correlation.Cases.Partition.{total, build_cases_partition}
use pondsecndr.Correlation.Cases.Growth.{IsCovered, build_cases-IsCovered}
use pondsecndr.Correlation.Cases.Chains.{Linked, build_cases-Linked}
use pondsecndr.Correlation.Incidents.{correlate_detections}
use pondsecndr.Correlation.Incidents.Built.{IsReported, correlate_detections-IsReported}
use pondsecndr.Samples

abbrev scan : Detection
scan = record {
  timestamp = "start";
  detection_id = "d1";
  detector_id = "pondsec.portscan";
  category = "reconnaissance";
  title = "Possible port scan";
  description = "Host contacted an unusual number of ports with failed connections.";
  severity = 7;
  confidence = Samples.hundredths 80;
  anomaly_score = Samples.hundredths 0;
  source_ip = some Samples.external_host;
  destination_ip = some Samples.internal_host;
  evidence = null;
  recommended_action = "investigate";
  model_version = none;
}

abbrev beacon : Detection
beacon = record scan {
  detection_id = "d2";
  detector_id = "pondsec.beaconing";
  category = "command_and_control";
  severity = 9;
}

abbrev other : Detection
other = record scan {
  timestamp = "later";
  detection_id = "d3";
  source_ip = none;
  destination_ip = none;
}

abbrev detections : List Detection
detections = scan ∷ beacon ∷ other ∷ []

abbrev is_scan : Detection → Bool
is_scan d = str_eq d.category "reconnaissance"

build_cases_partition_example :
    total is_scan (build_cases Samples.platform Samples.now 1800 detections)
    ≡ count_if is_scan detections
build_cases_partition_example =
    build_cases_partition Samples.platform Samples.now is_scan 1800 detections

build_cases-IsCovered_example :
    All
      (λ c. All (IsCovered Samples.platform Samples.now c) c.detections)
      (build_cases Samples.platform Samples.now 1800 detections)
build_cases-IsCovered_example = build_cases-IsCovered Samples.platform Samples.now 1800 detections

build_cases-Linked_example :
    All
      (λ c.
        Linked Samples.platform Samples.now
          (effective_window Samples.platform Samples.now 1800)
          c.detections)
      (build_cases Samples.platform Samples.now 1800 detections)
build_cases-Linked_example = build_cases-Linked Samples.platform Samples.now 1800 detections

correlate_detections-IsReported_example :
    All (IsReported Samples.platform (λ s. s) "2026-01-01T00:00:00+00:00") (
      correlate_detections Samples.platform
        (λ s. s)
        "2026-01-01T00:00:00+00:00"
        Samples.now
        detections
        1800)
correlate_detections-IsReported_example =
    correlate_detections-IsReported Samples.platform (λ s. s) "2026-01-01T00:00:00+00:00"
      Samples.now detections 1800
