-- ===== src/Detection/Run.antt =====
-- The detectors of `default_detectors` by their ids, and the loop of `run_once` in service.py over
-- those that are enabled.
pub mod Sound
pub mod Verdicts
use pondsecndr.Prelude.{String, List, [], ◌∷◌, ◌++◌, Option}
use pondsecndr.Python.Result.{Result, ok, ◌>>=◌}
use pondsecndr.Schema.{Event}
use pondsecndr.Detection.{Detection, Feature, Tools}
use pondsecndr.Detection.Scans.{
  detect_vertical_scan, detect_horizontal_scan, detect_lateral_movement,
  detect_unusual_tls_fingerprint,
}
use pondsecndr.Detection.Windows.{
  detect_each, port_scan_item, tunneling_item, exfiltration_item, fan_out_item, baseline_item,
}
use pondsecndr.Detection.Beaconing.{detect_beaconing}
use pondsecndr.Detection.Imported.{Score, suricata_item, detect_model}

-- The classes in the order of `default_detectors`.
pub data Detector : Type 0 where
  port_scan horizontal_scan vertical_scan dns_tunneling beaconing pretrained_ids_model : Detector
  host_baseline_anomaly unusual_destination lateral_movement data_exfiltration : Detector
  unusual_tls_fingerprint suricata_alert : Detector

abbrev pub detector_id : Detector → String
detector_id port_scan = "pondsec.portscan"
detector_id horizontal_scan = "pondsec.horizontal_scan"
detector_id vertical_scan = "pondsec.vertical_scan"
detector_id dns_tunneling = "pondsec.dns_tunneling"
detector_id beaconing = "pondsec.beaconing"
detector_id pretrained_ids_model = "pondsec.pretrained_ids_model"
detector_id host_baseline_anomaly = "pondsec.host_baseline_anomaly"
detector_id unusual_destination = "pondsec.unusual_destination"
detector_id lateral_movement = "pondsec.lateral_movement"
detector_id data_exfiltration = "pondsec.data_exfiltration"
detector_id unusual_tls_fingerprint = "pondsec.unusual_tls_fingerprint"
detector_id suricata_alert = "pondsec.suricata_alert"

abbrev pub default_detectors : List Detector
default_detectors =
    port_scan ∷ horizontal_scan ∷ vertical_scan ∷ dns_tunneling ∷ beaconing ∷ pretrained_ids_model
    ∷ host_baseline_anomaly ∷ unusual_destination ∷ lateral_movement ∷ data_exfiltration
    ∷ unusual_tls_fingerprint ∷ suricata_alert ∷ []

-- `runtime` gives the scores of the model, none if it is not available.
module _ (tools : Tools) (runtime : List Feature → Option (List Score)) where
  unfoldable pub detect : Detector → List Event → List Feature → Result (List Detection)
  detect port_scan events features = detect_each (port_scan_item tools) features
  detect horizontal_scan events features = ok (detect_horizontal_scan tools events)
  detect vertical_scan events features = ok (detect_vertical_scan tools events)
  detect dns_tunneling events features = detect_each (tunneling_item tools) features
  detect beaconing events features = ok (detect_beaconing tools events)
  detect pretrained_ids_model events features = ok (detect_model tools (runtime features))
  detect host_baseline_anomaly events features = detect_each (baseline_item tools) features
  detect unusual_destination events features = detect_each (fan_out_item tools) features
  detect lateral_movement events features = ok (detect_lateral_movement tools events)
  detect data_exfiltration events features = detect_each (exfiltration_item tools) features
  detect unusual_tls_fingerprint events features = ok (detect_unusual_tls_fingerprint tools events)
  detect suricata_alert events features = detect_each (suricata_item tools) events

  -- `for detector in enabled_detectors: detections.extend(detector.detect(events, features))`
  unfoldable pub run_detectors : List Detector → List Event → List Feature → Result (List Detection)
  unfolding detect
  run_detectors [] events features = ok []
  run_detectors (detector ∷ detectors) events features =
      detect detector events features >>= λ found.
      run_detectors detectors events features >>= λ rest. ok (found ++ rest)
