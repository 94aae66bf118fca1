-- ===== src/Detection/Scans.antt =====
-- The detectors of detection/detectors.py that count what a host contacts: VerticalScanDetector,
-- HorizontalScanDetector, LateralMovementDetector and UnusualTlsFingerprintDetector.
pub mod Reports
use Prim.Native.String.{◌++◌ as concat}
use pondsecndr.Prelude.{
  ℕ, String, ◌&&◌, List, [], ◌∷◌, Option, none, some, map, keep, take, length, any, leb, ◌==◌,
  str_eq, is_empty, if◌then◌else◌,
}
use pondsecndr.Prelude.Int.{pos}
use pondsecndr.Python.Float.{Float, float_min}
use pondsecndr.Python.Ipaddress.{is_private_ip}
use pondsecndr.Python.Value.{Value, int, str, obj, arr, get, truthy, text}
use pondsecndr.Schema.{Event}
use pondsecndr.Detection.{Detection, Tools}
use pondsecndr.Detection.Explain.{dict, items}
use pondsecndr.Detection.Make.{make_detection}
use pondsecndr.Detection.Groups.{text_key, number_key, pair_key, Groups, group_pairs}

-- An entry of "thresholds".
abbrev pub threshold : (feature operator : String) (limit observed : Value) → Value
threshold feature operator limit observed = obj (
    dict (
      ("feature", str feature)
      ∷ ("operator", str operator)
      ∷ ("threshold", limit)
      ∷ ("observed", observed)
      ∷ []))

abbrev pub number : ℕ → Value
number n = int (pos n)

-- `sorted(ports)`
unfoldable pub insert_port : ℕ → List ℕ → List ℕ
insert_port n [] = n ∷ []
insert_port n (m ∷ ms) = if leb n m then n ∷ m ∷ ms else m ∷ insert_port n ms

unfoldable pub sort_ports : List ℕ → List ℕ
unfolding insert_port
sort_ports [] = []
sort_ports (n ∷ ns) = insert_port n (sort_ports ns)

-- The pairs of keys and values that the events of a list give.
unfoldable pub collect {ℓ} : {A : Type ℓ} → (Event → Option A) → List Event → List A
collect f [] = []
collect f (e ∷ events) = elim (f e) [ none ↦ collect f events | some a ↦ a ∷ collect f events ]

-- A text that is neither missing nor empty.
unfoldable pub nonempty : Option String → Option String
nonempty none = none
nonempty (some s) = if is_empty s then none else some s

-- `if src and dst and port is not None`, then what the two addresses and the port give.
unfoldable pub contact {ℓ} :
    {A : Type ℓ}
    → (String → String → ℕ → Option A)
    → (src dst : Option String) → Option ℕ
    → Option A
contact f (some src) (some dst) (some port) = f src dst port
contact f _ _ _ = none

unfoldable pub contact_of {ℓ} : {A : Type ℓ} → (String → String → ℕ → Option A) → Event → Option A
unfolding nonempty contact
contact_of f e = contact f (nonempty e.source_ip) (nonempty e.destination_ip) e.destination_port

abbrev pub watched_ports : List ℕ
watched_ports = 22 ∷ 135 ∷ 139 ∷ 445 ∷ 3389 ∷ 5985 ∷ 5986 ∷ []

-- The detections of the groups that are large enough.
unfoldable pub report_large {ℓ κ} :
    {K : Type ℓ} {V : Type κ} → ℕ → (K → List V → Detection) → Groups K V → List Detection
report_large minimum make groups =
    map (λ (key, values). make key values)
      (keep (λ (key, values). leb minimum (length values)) groups)

module _ (tools : Tools) where
  -- `min(bound, base + n / d)` and `min(1.0, n / d)`
  unfoldable pub scaled : (bound base : Float) (n d : ℕ) → Float
  scaled bound base n d =
      float_min tools.floats bound (tools.floats.add base (tools.true_div (pos n) (pos d)))

  unfoldable pub portion : (n d : ℕ) → Float
  portion n d =
      float_min tools.floats (tools.floats.of_int (pos 1)) (tools.true_div (pos n) (pos d))

  unfoldable pub vertical_pairs : List Event → List ((String × String) × ℕ)
  unfolding collect contact_of
  vertical_pairs = collect (contact_of (λ src dst port. some ((src, dst), port)))

  unfoldable pub vertical_detection : String × String → List ℕ → Detection
  unfolding sort_ports scaled portion
  vertical_detection (src, dst) ports = make_detection tools (record {
    detector_id = "pondsec.vertical_scan";
    category = "reconnaissance";
    title = "Possible vertical scan";
    description = "Host contacted many ports on one destination.";
    source_ip = some src;
    destination_ip = some dst;
    severity = pos 7;
    confidence = scaled (tools.floats.decimal 95 2) (tools.floats.decimal 6 1) (length ports) 80;
    anomaly_score = portion (length ports) 40;
    evidence = dict (
        ("unique_ports", number (length ports))
        ∷ ("sample_ports", arr (items (map number (take 20 (sort_ports ports)))))
        ∷ (
          "thresholds",
          arr (
              items (
                threshold "unique_ports_to_single_destination" ">=" (number 10)
                  (number (length ports))
                ∷ [])),
        )
        ∷ []);
    recommended_action = "investigate";
    model_version = none;
  })

  unfoldable pub detect_vertical_scan : List Event → List Detection
  unfolding vertical_pairs report_large
  detect_vertical_scan events =
      report_large 10 vertical_detection (group_pairs (vertical_pairs events))

  unfoldable pub horizontal_pairs : List Event → List ((String × ℕ) × String)
  unfolding collect contact_of
  horizontal_pairs = collect (contact_of (λ src dst port. some ((src, port), dst)))

  -- `f"port:{port}"`
  unfoldable pub port_text : ℕ → String
  port_text port = concat "port:" (text tools.floats tools.texts (number port))

  unfoldable pub horizontal_detection : String × ℕ → List String → Detection
  unfolding scaled portion port_text
  horizontal_detection (src, port) destinations = make_detection tools (record {
    detector_id = "pondsec.horizontal_scan";
    category = "reconnaissance";
    title = "Possible horizontal scan";
    description = "Host contacted the same service across many destinations.";
    source_ip = some src;
    destination_ip = some (port_text port);
    severity = pos 7;
    confidence =
        scaled (tools.floats.decimal 95 2) (tools.floats.decimal 6 1) (length destinations) 80;
    anomaly_score = portion (length destinations) 40;
    evidence = dict (
        ("destination_count", number (length destinations))
        ∷ ("port", number port)
        ∷ (
          "thresholds",
          arr (
              items (
                threshold "destinations_on_same_port" ">=" (number 10)
                  (number (length destinations))
                ∷ [])),
        )
        ∷ []);
    recommended_action = "investigate";
    model_version = none;
  })

  unfoldable pub detect_horizontal_scan : List Event → List Detection
  unfolding horizontal_pairs report_large
  detect_horizontal_scan events =
      report_large 10 horizontal_detection (group_pairs (horizontal_pairs events))

  -- `port in self.watched_ports`, of two internal hosts.
  unfoldable pub lateral_contact : String → String → ℕ → Option (String × String)
  lateral_contact src dst port =
      if is_private_ip tools.ipaddress src
        && is_private_ip tools.ipaddress dst
        && any (λ w. port == w) watched_ports
      then some (src, dst)
      else none

  unfoldable pub lateral_pairs : List Event → List (String × String)
  unfolding collect contact_of lateral_contact
  lateral_pairs = collect (contact_of lateral_contact)

  unfoldable pub lateral_detection : String → List String → Detection
  unfolding scaled portion
  lateral_detection src destinations = make_detection tools (record {
    detector_id = "pondsec.lateral_movement";
    category = "lateral_movement";
    title = "Possible lateral movement";
    description = "Host contacted multiple internal administration or file-sharing services.";
    source_ip = some src;
    destination_ip = some "internal";
    severity = pos 8;
    confidence =
        scaled (tools.floats.decimal 95 2) (tools.floats.decimal 6 1) (length destinations) 20;
    anomaly_score = portion (length destinations) 15;
    evidence = dict (
        ("destination_count", number (length destinations))
        ∷ ("ports", arr (items (map number watched_ports)))
        ∷ (
          "thresholds",
          arr (
              items (
                threshold "internal_admin_service_destinations" ">=" (number 5)
                  (number (length destinations))
                ∷ [])),
        )
        ∷ []);
    recommended_action = "investigate";
    model_version = none;
  })

  unfoldable pub detect_lateral_movement : List Event → List Detection
  unfolding lateral_pairs report_large
  detect_lateral_movement events =
      report_large 5 lateral_detection (group_pairs (lateral_pairs events))

  -- `if src and fingerprint`
  unfoldable pub fingerprint_of : Option String → Value → Option (String × String)
  fingerprint_of none fingerprint = none
  fingerprint_of (some src) fingerprint =
      if truthy tools.floats tools.texts fingerprint
      then some (src, text tools.floats tools.texts fingerprint)
      else none

  unfoldable pub tls_pair : Event → Option (String × String)
  unfolding fingerprint_of nonempty
  tls_pair e =
      if str_eq e.event_type "tls"
      then fingerprint_of (nonempty e.source_ip) (get e.metadata "fingerprint")
      else none

  unfoldable pub tls_detection : String → List String → Detection
  unfolding scaled portion
  tls_detection src fingerprints = make_detection tools (record {
    detector_id = "pondsec.unusual_tls_fingerprint";
    category = "evasion";
    title = "Unusual TLS fingerprint diversity";
    description = "Host used many TLS fingerprints in a short analysis window.";
    source_ip = some src;
    destination_ip = none;
    severity = pos 6;
    confidence =
        scaled (tools.floats.decimal 9 1) (tools.floats.decimal 5 1) (length fingerprints) 30;
    anomaly_score = portion (length fingerprints) 20;
    evidence = dict (
        ("fingerprint_count", number (length fingerprints))
        ∷ (
          "thresholds",
          arr (
              items (
                threshold "fingerprint_count" ">=" (number 8) (number (length fingerprints)) ∷ [])),
        )
        ∷ []);
    recommended_action = "investigate";
    model_version = none;
  })

  unfoldable pub detect_unusual_tls_fingerprint : List Event → List Detection
  unfolding collect tls_pair report_large
  detect_unusual_tls_fingerprint events =
      report_large 8 tls_detection (group_pairs (collect tls_pair events))
