-- ===== src/Examples/Detection.antt =====
-- The theorems on detection/, on the events of a host that contacts ten ports of another.
use pondsecndr.Prelude.{ℕ, zero, suc, ◌≡◌, List, [], ◌∷◌, none, some, any, leb, length}
use pondsecndr.Python.Value.{null, end}
use pondsecndr.Schema.{Event}
use pondsecndr.Detection.Scans.{vertical_pairs, detect_vertical_scan}
use pondsecndr.Detection.Groups.{text_key, number_key, pair_key}
use pondsecndr.Detection.Groups.Exact.{distinct_values}
use pondsecndr.Detection.Scans.Reports.{is_between, detect_vertical_scan_iff}
use pondsecndr.Detection.Run.{default_detectors, run_detectors}
use pondsecndr.Detection.Run.Verdicts.{AllSound}
use pondsecndr.Detection.Run.Sound.{run_detectors-AllSound}
use pondsecndr.Samples

-- A connection of the attacker to a port of the internal host.
abbrev contact : ℕ → Event
contact port = record {
  event_id = "event";
  event_type = "flow";
  timestamp = "start";
  source_ip = some Samples.external_host;
  source_port = none;
  interface = null;
  destination_ip = some Samples.internal_host;
  destination_port = some port;
  protocol = null;
  direction = "inbound";
  metadata = end;
}

abbrev contacts : ℕ → List Event
contacts zero = []
contacts (suc n) = contact n ∷ contacts n

detect_vertical_scan_iff_example :
    any
      (is_between Samples.tools Samples.external_host Samples.internal_host)
      (detect_vertical_scan Samples.tools (contacts 10))
    ≡ leb 10 (
        length (
          distinct_values
            (Samples.external_host, Samples.internal_host)
            (vertical_pairs Samples.tools (contacts 10))))
detect_vertical_scan_iff_example =
    detect_vertical_scan_iff Samples.tools Samples.external_host Samples.internal_host (contacts 10)

run_detectors-AllSound_example :
    AllSound (run_detectors Samples.tools (λ features. none) default_detectors (contacts 10) [])
run_detectors-AllSound_example =
    run_detectors-AllSound Samples.tools (λ features. none) default_detectors (contacts 10) []
