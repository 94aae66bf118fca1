-- ===== src/Detection/Windows.antt =====
-- The detectors of detection/detectors.py that read one item of the features at a time:
-- PortScanDetector, DNSTunnelingDetector, DataExfiltrationDetector, UnusualDestinationDetector and
-- HostBaselineAnomalyDetector.
use pondsecndr.Prelude.{
  String, Bool, false, not, ◌&&◌, ◌||◌, List, [], ◌∷◌, ◌++◌, none, some, str_eq, if◌then◌else◌,
}
use pondsecndr.Prelude.Int.{ℤ, pos, ltb_ℤ}
use pondsecndr.Python.Float.{Float, float_min}
use pondsecndr.Python.Value.{
  Value, bool, int, float, str, obj, arr, Fields, empty, get, int_or_zero, float_or_zero,
}
use pondsecndr.Python.Result.{Result, ok, ◌>>=◌}
use pondsecndr.Detection.{Detection, Feature, Tools}
use pondsecndr.Detection.Explain.{dict, items, get_or}
use pondsecndr.Detection.Make.{Finding, make_detection}
use pondsecndr.Detection.Scans.{threshold, number}

abbrev pub leb_ℤ : ℤ → ℤ → Bool
leb_ℤ a b = not (ltb_ℤ b a)

abbrev pub is_established : Value → Bool
is_established (str s) = str_eq s "established"
is_established _ = false

-- One item that raises ends the detector.
unfoldable pub detect_each {ℓ} :
    {A : Type ℓ} → (A → Result (List Detection)) → List A → Result (List Detection)
detect_each f [] = ok []
detect_each f (x ∷ xs) = f x >>= λ found. detect_each f xs >>= λ rest. ok (found ++ rest)

module _ (tools : Tools) where
  abbrev pub int_at : Fields → String → Result ℤ
  int_at fields key = int_or_zero tools.floats tools.texts (get fields key)

  abbrev pub float_at : Fields → String → Result Float
  float_at fields key = float_or_zero tools.floats tools.texts (get fields key)

  abbrev one : Float
  one = tools.floats.of_int (pos 1)

  unfoldable pub port_scan_finding : String → (port_count dest_count failed : ℤ) → Finding
  port_scan_finding source_ip port_count dest_count failed = record {
    detector_id = "pondsec.portscan";
    category = "reconnaissance";
    title = "Possible port scan";
    description = "Host contacted an unusual number of ports with failed connections.";
    source_ip = some source_ip;
    destination_ip = none;
    severity = pos 7;
    confidence = float_min tools.floats (tools.floats.decimal 98 2) (
        tools.floats.add
          (tools.floats.add (tools.floats.decimal 65 2) (tools.true_div port_count (pos 100)))
          (tools.true_div failed (pos 100)));
    anomaly_score = float_min tools.floats one (tools.true_div port_count (pos 50));
    evidence = dict (
        ("unique_ports", int port_count)
        ∷ ("unique_destinations", int dest_count)
        ∷ ("failed_connections", int failed)
        ∷ (
          "thresholds",
          arr (
              items (
                threshold "unique_ports" ">=" (number 12) (int port_count)
                ∷ threshold "failed_connections" ">=" (number 3) (int failed)
                ∷ [])),
        )
        ∷ []);
    recommended_action = "investigate";
    model_version = none;
  }

  unfoldable pub port_scan_item : Feature → Result (List Detection)
  unfolding port_scan_finding
  port_scan_item item = do
    port_count ← int_at item.fields "port_count"
    dest_count ← int_at item.fields "destination_count"
    failed ← int_at item.fields "failed_connections"
    ok (
        if leb_ℤ (pos 12) port_count && leb_ℤ (pos 3) failed
        then make_detection tools (port_scan_finding item.source_ip port_count dest_count failed)
          ∷ []
        else [])

  unfoldable pub tunneling_finding :
      String → (entropy : Float) (name_length : ℤ) (query_rate nxdomain : Float) → Finding
  tunneling_finding source_ip entropy name_length query_rate nxdomain = record {
    detector_id = "pondsec.dns_tunneling";
    category = "command_and_control";
    title = "Possible DNS tunneling";
    description =
        "DNS metadata shows long high-entropy names with unusual rate or NXDOMAIN behavior.";
    source_ip = some source_ip;
    destination_ip = none;
    severity = pos 8;
    confidence = float_min tools.floats (tools.floats.decimal 97 2) (
        tools.floats.add
          (tools.floats.add (tools.floats.decimal 55 2)
            (tools.floats.div entropy (tools.floats.of_int (pos 10))))
          (tools.floats.div (float_min tools.floats query_rate one) (tools.floats.of_int (pos 5))));
    anomaly_score =
        float_min tools.floats one (tools.floats.div entropy (tools.floats.of_int (pos 5)));
    evidence = dict (
        ("dns_entropy", float entropy)
        ∷ ("dns_name_length", int name_length)
        ∷ ("dns_query_rate", float query_rate)
        ∷ ("dns_nxdomain_rate", float nxdomain)
        ∷ (
          "thresholds",
          arr (
              items (
                threshold "dns_entropy" ">=" (float (tools.floats.decimal 38 1)) (float entropy)
                ∷ threshold "dns_name_length" ">=" (number 45) (int name_length)
                ∷ threshold "dns_query_rate_or_nxdomain_rate"
                    "query_rate>=0.2 OR nxdomain_rate>=0.3" (str "0.2/0.3")
                    (obj (
                      dict (
                        ("dns_query_rate", float query_rate)
                        ∷ ("dns_nxdomain_rate", float nxdomain)
                        ∷ [])))
                ∷ [])),
        )
        ∷ []);
    recommended_action = "investigate";
    model_version = none;
  }

  unfoldable pub tunneling_item : Feature → Result (List Detection)
  unfolding tunneling_finding
  tunneling_item item = do
    entropy ← float_at item.fields "dns_entropy"
    name_length ← int_at item.fields "dns_name_length"
    query_rate ← float_at item.fields "dns_query_rate"
    nxdomain ← float_at item.fields "dns_nxdomain_rate"
    ok (
        if tools.le (tools.floats.decimal 38 1) entropy
          && leb_ℤ (pos 45) name_length
          && (tools.le (tools.floats.decimal 2 1) query_rate
              || tools.le (tools.floats.decimal 3 1) nxdomain)
        then make_detection tools
            (tunneling_finding item.source_ip entropy name_length query_rate nxdomain)
          ∷ []
        else [])

  unfoldable pub exfiltration_finding : String → (ratio : Float) (bytes_out : ℤ) → Finding
  exfiltration_finding source_ip ratio bytes_out = record {
    detector_id = "pondsec.data_exfiltration";
    category = "exfiltration";
    title = "Possible data exfiltration";
    description = "Host uploaded substantially more data than it downloaded.";
    source_ip = some source_ip;
    destination_ip = none;
    severity = pos 8;
    confidence = float_min tools.floats (tools.floats.decimal 96 2) (
        tools.floats.add (tools.floats.decimal 55 2) (
          tools.floats.div (float_min tools.floats ratio (tools.floats.of_int (pos 50)))
            (tools.floats.of_int (pos 100))));
    anomaly_score =
        float_min tools.floats one (tools.floats.div ratio (tools.floats.of_int (pos 50)));
    evidence = dict (
        ("bytes_out", int bytes_out)
        ∷ ("upload_download_ratio", float ratio)
        ∷ (
          "thresholds",
          arr (
              items (
                threshold "bytes_out" ">=" (number 50_000_000) (int bytes_out)
                ∷ threshold "upload_download_ratio" ">=" (number 8) (float ratio)
                ∷ [])),
        )
        ∷ []);
    recommended_action = "investigate";
    model_version = none;
  }

  unfoldable pub exfiltration_item : Feature → Result (List Detection)
  unfolding exfiltration_finding
  exfiltration_item item = do
    ratio ← float_at item.fields "upload_download_ratio"
    bytes_out ← int_at item.fields "bytes_out"
    ok (
        if leb_ℤ (pos 50_000_000) bytes_out && tools.le (tools.floats.of_int (pos 8)) ratio
        then make_detection tools (exfiltration_finding item.source_ip ratio bytes_out) ∷ []
        else [])

  unfoldable pub fan_out_finding : String → (destinations : ℤ) (burst_score : Value) → Finding
  fan_out_finding source_ip destinations burst_score = record {
    detector_id = "pondsec.unusual_destination";
    category = "anomaly";
    title = "Unusual destination fan-out";
    description = "Host contacted many destinations in a short window.";
    source_ip = some source_ip;
    destination_ip = none;
    severity = pos 6;
    confidence =
        float_min tools.floats (tools.floats.decimal 9 1)
          (tools.floats.add (tools.floats.decimal 5 1) (tools.true_div destinations (pos 200)));
    anomaly_score = float_min tools.floats one (tools.true_div destinations (pos 100));
    evidence = dict (
        ("destination_count", int destinations)
        ∷ ("burst_score", burst_score)
        ∷ (
          "thresholds",
          arr (
              items (
                threshold "destination_count" ">=" (number 50) (int destinations)
                ∷ threshold "burst_score" ">=" (float (tools.floats.decimal 2 1)) burst_score
                ∷ [])),
        )
        ∷ []);
    recommended_action = "investigate";
    model_version = none;
  }

  -- The burst score is only read for many destinations.
  unfoldable pub is_burst : Fields → (destinations : ℤ) → Result Bool
  is_burst fields destinations =
      if leb_ℤ (pos 50) destinations
      then (float_at fields "burst_score" >>= λ score.
          ok (tools.le (tools.floats.decimal 2 1) score))
      else ok false

  unfoldable pub fan_out_item : Feature → Result (List Detection)
  unfolding fan_out_finding is_burst
  fan_out_item item = do
    destinations ← int_at item.fields "destination_count"
    burst ← is_burst item.fields destinations
    ok (
        if burst
        then make_detection tools
            (fan_out_finding item.source_ip destinations (get item.fields "burst_score"))
          ∷ []
        else [])

  unfoldable pub baseline_finding : Feature → (deviation : Float) (observations : ℤ) → Finding
  baseline_finding item deviation observations = record {
    detector_id = "pondsec.host_baseline_anomaly";
    category = "anomaly";
    title = "Host baseline anomaly";
    description =
        "Host behavior deviates from its established network baseline without requiring a signature match.";
    source_ip = some item.source_ip;
    destination_ip = none;
    severity = if tools.le (tools.floats.decimal 8 1) deviation then pos 8 else pos 7;
    confidence = float_min tools.floats (tools.floats.decimal 97 2) (
        tools.floats.add (tools.floats.decimal 68 2)
          (tools.floats.div deviation (tools.floats.of_int (pos 4))));
    anomaly_score = deviation;
    evidence = dict (
        ("baseline_deviation", float deviation)
        ∷ ("baseline_observations", int observations)
        ∷ (
          "reasons",
          get_or tools.floats tools.texts item.fields "baseline_anomaly_reasons" (arr empty),
        )
        ∷ ("signature_required", bool false)
        ∷ (
          "thresholds",
          arr (
              items (
                threshold "baseline_status" "=" (str "established")
                  (get item.fields "baseline_status")
                ∷ threshold "baseline_deviation" ">=" (float (tools.floats.decimal 65 2))
                    (float deviation)
                ∷ [])),
        )
        ∷ []);
    recommended_action = "block";
    model_version = some "pondsec-host-baseline-v1";
  }

  unfoldable pub baseline_item : Feature → Result (List Detection)
  unfolding baseline_finding
  baseline_item item = do
    deviation ← float_at item.fields "baseline_deviation"
    observations ← int_at item.fields "baseline_observations"
    ok (
        if not (is_established (get item.fields "baseline_status"))
          || tools.floats.lt deviation (tools.floats.decimal 65 2)
        then []
        else make_detection tools (baseline_finding item deviation observations) ∷ [])
