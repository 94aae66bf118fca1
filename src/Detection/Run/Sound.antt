-- ===== src/Detection/Run/Sound.antt =====
-- What holds of every detection, whichever detectors run.
use pondsecndr.Prelude.{
  ℕ, refl, String, Bool, true, false, ◌&&◌, ◌||◌, List, [], ◌∷◌, Option, none, some, All,
  All-append, length, ltb, str_eq, is_in, Bool-cases, inl, inr,
}
use pondsecndr.Prelude.Int.{ℤ, pos}
use pondsecndr.Python.Float.{Float}
use pondsecndr.Python.Value.{truthy, get}
use pondsecndr.Schema.{Event}
use pondsecndr.Detection.{Feature, Tools}
use pondsecndr.Detection.Make.{make_detection}
use pondsecndr.Detection.Groups.{Groups}
use pondsecndr.Detection.Scans.{
  vertical_detection, horizontal_detection, lateral_detection, tls_detection,
  detect_horizontal_scan, detect_vertical_scan, detect_lateral_movement,
  detect_unusual_tls_fingerprint,
}
use pondsecndr.Detection.Windows.{
  int_at, float_at, port_scan_item, port_scan_finding, tunneling_item, tunneling_finding,
  exfiltration_item, exfiltration_finding, is_burst, fan_out_item, fan_out_finding, baseline_item,
  baseline_finding,
}
use pondsecndr.Detection.Beaconing.{
  beaconing_finding, beaconing_report, beaconing_group, report_groups, contacts_from,
  detect_beaconing,
}
use pondsecndr.Detection.Imported.{
  Score, suricata_finding, suricata_severity, suricata_item, model_finding, detect_scores,
  detect_model,
}
use pondsecndr.Detection.Run.{
  Detector, port_scan, horizontal_scan, vertical_scan, dns_tunneling, beaconing,
  pretrained_ids_model, host_baseline_anomaly, unusual_destination, lateral_movement,
  data_exfiltration, unusual_tls_fingerprint, suricata_alert, detect, run_detectors,
}
use pondsecndr.Detection.Run.Verdicts.{
  report_large-All, IsSound, AllSound, make_detection-IsSound, append-AllSound, bind-AllSound,
  one-AllSound, none-AllSound, three_tests-All, detect_each-AllSound, IsSoundFinding,
}

module _ (tools : Tools) where
  port_scan_item-AllSound : (item : Feature) → AllSound (port_scan_item tools item)
  unfolding port_scan_item port_scan_finding is_in
  port_scan_item-AllSound item =
      bind-AllSound (int_at tools item.fields "port_count") _ λ port_count.
        bind-AllSound (int_at tools item.fields "destination_count") _ λ dest_count.
          bind-AllSound (int_at tools item.fields "failed_connections") _
            λ failed. one-AllSound _ _ (make_detection-IsSound tools _ (refl, refl))

  tunneling_item-AllSound : (item : Feature) → AllSound (tunneling_item tools item)
  unfolding tunneling_item tunneling_finding is_in
  tunneling_item-AllSound item =
      bind-AllSound (float_at tools item.fields "dns_entropy") _ λ entropy.
        bind-AllSound (int_at tools item.fields "dns_name_length") _ λ name_length.
          bind-AllSound (float_at tools item.fields "dns_query_rate") _ λ query_rate.
            bind-AllSound (float_at tools item.fields "dns_nxdomain_rate") _
              λ nxdomain. one-AllSound _ _ (make_detection-IsSound tools _ (refl, refl))

  exfiltration_item-AllSound : (item : Feature) → AllSound (exfiltration_item tools item)
  unfolding exfiltration_item exfiltration_finding is_in
  exfiltration_item-AllSound item =
      bind-AllSound (float_at tools item.fields "upload_download_ratio") _ λ ratio.
        bind-AllSound (int_at tools item.fields "bytes_out") _
          λ bytes_out. one-AllSound _ _ (make_detection-IsSound tools _ (refl, refl))

  fan_out_item-AllSound : (item : Feature) → AllSound (fan_out_item tools item)
  unfolding fan_out_item fan_out_finding is_in
  fan_out_item-AllSound item =
      bind-AllSound (int_at tools item.fields "destination_count") _ λ destinations.
        bind-AllSound (is_burst tools item.fields destinations) _
          λ burst. one-AllSound _ _ (make_detection-IsSound tools _ (refl, refl))

  baseline_item-AllSound : (item : Feature) → AllSound (baseline_item tools item)
  unfolding baseline_item baseline_finding is_in
  baseline_item-AllSound item =
      bind-AllSound (float_at tools item.fields "baseline_deviation") _ λ deviation.
        bind-AllSound (int_at tools item.fields "baseline_observations") _
          λ observations. none-AllSound _ _ (make_detection-IsSound tools _ (refl, refl))

  suricata_finding-IsSound :
      (e : Event) (is_drop : Bool) (severity : ℤ)
      → IsSoundFinding (suricata_finding tools e is_drop severity)
  unfolding suricata_finding is_in
  suricata_finding-IsSound e true severity = (refl, refl)
  suricata_finding-IsSound e false severity = (refl, refl)

  suricata_item-AllSound : (e : Event) → AllSound (suricata_item tools e)
  unfolding suricata_item
  suricata_item-AllSound e =
      elim (Bool-cases (
        (str_eq e.event_type "alert" || str_eq e.event_type "drop")
        && truthy tools.floats tools.texts (get e.metadata "signature_id"))) [
          | inr other ↦ rw other tt
          | inl alert ↦ rw alert (
              bind-AllSound (suricata_severity tools (get e.metadata "severity")) _ λ severity. (
                make_detection-IsSound tools _
                    (suricata_finding-IsSound e (str_eq e.event_type "drop") severity),
                tt,
              ))
        ]

  detect_scores-All : (scores : List Score) → All IsSound (detect_scores tools scores)
  unfolding detect_scores model_finding is_in
  detect_scores-All [] = tt
  detect_scores-All (s ∷ scores) =
      elim (Bool-cases (tools.floats.lt s.attack_probability (tools.floats.decimal 55 2))) [
        | inl low ↦ rw low (detect_scores-All scores)
        | inr high ↦ rw high (
          make_detection-IsSound tools (model_finding tools s) (refl, refl),
          detect_scores-All scores,
        )
      ]

  beaconing_report-All :
      (src dst : String) (port : Option ℕ) (connections : ℕ) (avg spread periodicity : Float)
      → All IsSound (beaconing_report tools src dst port connections avg spread periodicity)
  unfolding beaconing_report beaconing_finding is_in
  beaconing_report-All src dst port connections avg spread periodicity =
      three_tests-All (ltb connections 5)
        (tools.le avg (tools.floats.of_int (pos 0))
          || tools.floats.lt avg (tools.floats.of_int (pos 15)))
        (tools.le (tools.floats.decimal 85 2) periodicity)
        (make_detection tools
          (beaconing_finding tools src dst port connections avg spread periodicity))
        (make_detection-IsSound tools _ (refl, refl))

  beaconing_group-All :
      (group : (String × (String × Option ℕ)) × List Float)
      → All IsSound (beaconing_group tools group)
  unfolding beaconing_group
  beaconing_group-All ((src, (dst, port)), timestamps) =
      beaconing_report-All src dst port (length timestamps) _ _ _

  report_groups-All :
      (groups : Groups (String × (String × Option ℕ)) Float)
      → All IsSound (report_groups tools groups)
  unfolding report_groups
  report_groups-All [] = tt
  report_groups-All (group ∷ groups) =
      All-append IsSound (beaconing_group tools group) (report_groups tools groups)
        (beaconing_group-All group) (report_groups-All groups)

  vertical-IsSound :
      (key : String × String) (ports : List ℕ) → IsSound (vertical_detection tools key ports)
  unfolding vertical_detection is_in
  vertical-IsSound (src, dst) ports = make_detection-IsSound tools _ (refl, refl)

  horizontal-IsSound :
      (key : String × ℕ) (destinations : List String)
      → IsSound (horizontal_detection tools key destinations)
  unfolding horizontal_detection is_in
  horizontal-IsSound (src, port) destinations = make_detection-IsSound tools _ (refl, refl)

  lateral-IsSound :
      (src : String) (destinations : List String)
      → IsSound (lateral_detection tools src destinations)
  unfolding lateral_detection is_in
  lateral-IsSound src destinations = make_detection-IsSound tools _ (refl, refl)

  tls-IsSound :
      (src : String) (fingerprints : List String) → IsSound (tls_detection tools src fingerprints)
  unfolding tls_detection is_in
  tls-IsSound src fingerprints = make_detection-IsSound tools _ (refl, refl)

module _ (tools : Tools) (runtime : List Feature → Option (List Score)) where
  detect_model-All : (scores : Option (List Score)) → All IsSound (detect_model tools scores)
  unfolding detect_model
  detect_model-All none = tt
  detect_model-All (some scores) = detect_scores-All tools scores

  detect-AllSound :
      (detector : Detector) (events : List Event) (features : List Feature)
      → AllSound (detect tools runtime detector events features)
  unfolding detect detect_horizontal_scan detect_vertical_scan detect_lateral_movement
      detect_unusual_tls_fingerprint detect_beaconing
  detect-AllSound port_scan events features =
      detect_each-AllSound _ features (port_scan_item-AllSound tools)
  detect-AllSound horizontal_scan events features =
      report_large-All 10 _ _ (horizontal-IsSound tools)
  detect-AllSound vertical_scan events features = report_large-All 10 _ _ (vertical-IsSound tools)
  detect-AllSound dns_tunneling events features =
      detect_each-AllSound _ features (tunneling_item-AllSound tools)
  detect-AllSound beaconing events features =
      report_groups-All tools (contacts_from tools [] events)
  detect-AllSound pretrained_ids_model events features = detect_model-All (runtime features)
  detect-AllSound host_baseline_anomaly events features =
      detect_each-AllSound _ features (baseline_item-AllSound tools)
  detect-AllSound unusual_destination events features =
      detect_each-AllSound _ features (fan_out_item-AllSound tools)
  detect-AllSound lateral_movement events features = report_large-All 5 _ _ (lateral-IsSound tools)
  detect-AllSound data_exfiltration events features =
      detect_each-AllSound _ features (exfiltration_item-AllSound tools)
  detect-AllSound unusual_tls_fingerprint events features =
      report_large-All 8 _ _ (tls-IsSound tools)
  detect-AllSound suricata_alert events features =
      detect_each-AllSound _ events (suricata_item-AllSound tools)

  -- Whichever detectors run, and whatever the events, the features and the model are, every detection
  -- has a severity from 1 to 10 and a known category, and recommends a block exactly if it comes
  -- from one of the two detectors that learn.
  pub run_detectors-AllSound :
      (detectors : List Detector) (events : List Event) (features : List Feature)
      → AllSound (run_detectors tools runtime detectors events features)
  unfolding run_detectors
  run_detectors-AllSound [] events features = tt
  run_detectors-AllSound (detector ∷ detectors) events features =
      append-AllSound (detect tools runtime detector events features)
        (run_detectors tools runtime detectors events features)
        (detect-AllSound detector events features)
        (run_detectors-AllSound detectors events features)
