-- ===== src/Config/Load.antt =====
-- `load_config` of config.py, from the JSON object that the configuration file holds, with the
-- conversions `_bool`, `_int` and `_csv`. The environment variables and the file are its arguments.
pub mod Bounds
use pondsecndr.Prelude.{
  ℕ, String, Bool, true, false, not, List, [], ◌∷◌, Option, none, some, is_in, lower, strip,
  is_empty, keep, map, any, if◌then◌else◌,
}
use pondsecndr.Prelude.Int.{ℤ, pos, pos_part, max_ℤ, min_ℤ}
use pondsecndr.Python.Float.{Floats}
use pondsecndr.Python.Value.{
  Value, null, bool, int, arr, obj, Fields, end, Texts, get, has, as_dict, elements, truthy, text,
  text_or,
}
use pondsecndr.Python.Result.{Result, ok, raise, attribute_error, overflow_error, deny, ◌>>=◌, ◌>>◌}
use pondsecndr.Config.{
  modes, response_modes, InterfaceConfig, DetectionConfig, ThreatIntelConfig, ResponseConfig,
  PondSecConfig,
}

-- What the conversions take from Python: `int(v)` of a value that is no integer (`none` where it
-- raises `TypeError` or `ValueError`), whether it raises `OverflowError`, as of the infinity that JSON
-- may hold, and `text.split(",")`.
pub record Conversions : Type 0 where
  pub to_int : Value → Option ℤ
  pub overflows : Value → Bool
  pub split_commas : String → List String

-- The numbers of each part of the file.
abbrev pub top_numbers : List String
top_numbers =
    "risk_threshold" ∷ "max_event_rate" ∷ "max_queue_length" ∷ "retention_days" ∷ "max_database_mb"
    ∷ "incident_rate_limit_per_minute" ∷ "pf_action_rate_limit_per_minute" ∷ "memory_warning_mb"
    ∷ "cpu_warning_percent" ∷ []

abbrev pub detection_numbers : List String
detection_numbers =
    "learning_days" ∷ "learning_phase_observations" ∷ "minimum_observations"
    ∷ "minimum_incident_confidence" ∷ "correlation_window_minutes" ∷ "false_positive_feedback_days"
    ∷ []

abbrev pub threat_intel_numbers : List String
threat_intel_numbers = "cache_ttl_hours" ∷ "api_timeout_seconds" ∷ []

abbrev pub response_numbers : List String
response_numbers =
    "minimum_confidence" ∷ "minimum_risk_score" ∷ "minimum_severity" ∷ "min_internal_event_count"
    ∷ "min_internal_detection_count" ∷ "min_internal_categories" ∷ "min_supporting_indicators"
    ∷ "min_independent_engines" ∷ "baseline_stable_observations" ∷ "default_block_seconds"
    ∷ "auto_isolation_seconds" ∷ "max_block_seconds" ∷ "max_concurrent_blocks"
    ∷ "internal_isolation_cooldown_seconds" ∷ "max_internal_isolations_per_hour"
    ∷ "max_auto_isolation_candidates_per_run" ∷ []

-- The last four lines of `_int`, for bounds that are not negative.
clamp : (minimum maximum : ℕ) → ℤ → ℕ
clamp minimum maximum number = pos_part (min_ℤ (pos maximum) (max_ℤ (pos minimum) number))

module _ (floats : Floats) (texts : Texts) (conv : Conversions) where
  -- `_bool`
  unfoldable pub as_bool : Value → Bool → Bool
  as_bool null default = default
  as_bool (bool b) default = b
  as_bool (int n) default = truthy floats texts (int n)
  as_bool v default =
      is_in (lower (strip (text floats texts v))) ("1" ∷ "true" ∷ "yes" ∷ "on" ∷ "enabled" ∷ [])

  whole : Value → Option ℤ
  whole (int n) = some n
  whole v = conv.to_int v

  -- `_int` with both bounds, as `load_config` calls it.
  unfoldable pub as_int : Value → (default minimum maximum : ℕ) → ℕ
  unfolding clamp whole
  as_int v default minimum maximum =
      clamp minimum maximum (elim (whole v) [ none ↦ pos default | some n ↦ n ])

  trimmed : List String → List String
  trimmed items = keep (λ s. not (is_empty s)) (map strip items)

  -- `_csv`
  unfoldable pub as_csv : Value → List String
  unfolding trimmed
  as_csv null = []
  as_csv (arr items) = trimmed (map (text floats texts) (elements items))
  as_csv v = trimmed (conv.split_commas (text floats texts v))

  -- `str(d.get(key, default))`
  text_default : Fields → String → String → String
  text_default d key default = if has d key then text floats texts (get d key) else default

  -- `raw.get(key) or {}`, of which `get` is called next.
  section_of : Value → Result Fields
  section_of (obj fields) = ok fields
  section_of value = if truthy floats texts value then raise attribute_error else ok end

  -- `_int` has no handler for the `OverflowError` of one of the numbers.
  check_numbers : Fields → List String → Result (Unit {0})
  check_numbers d keys = deny (any (λ key. conv.overflows (get d key)) keys) overflow_error

  load_mode : Fields → String
  unfolding text_default
  load_mode raw =
      let mode = lower (strip (text_default raw "mode" "monitor")) in
      if is_in mode modes then mode else "monitor"

  load_response_mode : Fields → String
  load_response_mode response =
      let mode = lower (strip (text_or floats texts (get response "mode") "observe")) in
      if is_in mode response_modes then mode else "observe"

  load_interfaces : Fields → InterfaceConfig
  unfolding text_default
  load_interfaces d =
      let csv = λ (key : String). as_csv (get d key) in
      record {
        monitored = csv "monitored";
        monitored_devices = csv "monitored_devices";
        direction = lower (strip (text_default d "direction" "both"));
        internal = csv "internal";
        internal_devices = csv "internal_devices";
        wan = csv "wan";
        wan_devices = csv "wan_devices";
        management = csv "management";
        management_devices = csv "management_devices";
        excluded_interfaces = csv "excluded_interfaces";
        excluded_devices = csv "excluded_devices";
        excluded_networks = csv "excluded_networks";
        excluded_hosts = csv "excluded_hosts";
      }

  -- `marker` is what the file `learning_started_at` holds, or the empty text.
  load_detection : Fields → (marker : String) → DetectionConfig
  load_detection d marker =
      let flag = λ (key : String) (default : Bool). as_bool (get d key) default in
      let number = λ (key : String) (default lo hi : ℕ). as_int (get d key) default lo hi in
      record {
        suricata_events = flag "suricata_events" true;
        dns_analysis = flag "dns_analysis" true;
        tls_analysis = flag "tls_analysis" true;
        http_metadata = flag "http_metadata" true;
        portscan = flag "portscan" true;
        lateral_movement = flag "lateral_movement" true;
        beaconing = flag "beaconing" true;
        dns_tunneling = flag "dns_tunneling" true;
        exfiltration = flag "exfiltration" true;
        unusual_destinations = flag "unusual_destinations" true;
        unusual_services = flag "unusual_services" true;
        unusual_internal = flag "unusual_internal" true;
        machine_learning = flag "machine_learning" true;
        learning_mode = flag "learning_mode" true;
        learning_started_at = text_or floats texts (get d "learning_started_at") marker;
        learning_days = number "learning_days" 14 1 90;
        early_ai_activation_override = flag "early_ai_activation_override" false;
        learning_phase_observations = number "learning_phase_observations" 1000 10 10000000;
        minimum_observations = number "minimum_observations" 50 1 1000000;
        minimum_incident_confidence = number "minimum_incident_confidence" 75 1 100;
        correlation_window_minutes = number "correlation_window_minutes" 30 1 1440;
        false_positive_feedback_days = number "false_positive_feedback_days" 14 1 365;
      }

  load_threat_intel : Fields → ThreatIntelConfig
  load_threat_intel d = record {
    cve_enrichment = as_bool (get d "cve_enrichment") true;
    external_lookup = as_bool (get d "external_lookup") false;
    cache_ttl_hours = as_int (get d "cache_ttl_hours") 24 1 168;
    api_timeout_seconds = as_int (get d "api_timeout_seconds") 5 1 30;
  }

  load_response : Fields → ResponseConfig
  unfolding load_response_mode
  load_response d =
      let flag = λ (key : String) (default : Bool). as_bool (get d key) default in
      let number = λ (key : String) (default lo hi : ℕ). as_int (get d key) default lo hi in
      record {
        mode = load_response_mode d;
        ai_full_decision_mode = flag "ai_full_decision_mode" false;
        kill_switch = flag "kill_switch" false;
        maintenance_mode = flag "maintenance_mode" false;
        automatic_blocking = flag "automatic_blocking" false;
        minimum_confidence = number "minimum_confidence" 95 1 100;
        minimum_risk_score = number "minimum_risk_score" 95 1 100;
        minimum_severity = number "minimum_severity" 9 1 10;
        min_internal_event_count = number "min_internal_event_count" 3 1 100000;
        min_internal_detection_count = number "min_internal_detection_count" 3 1 100000;
        min_internal_categories = number "min_internal_categories" 3 1 100;
        min_supporting_indicators = number "min_supporting_indicators" 2 0 100;
        min_independent_engines = number "min_independent_engines" 2 1 100;
        baseline_stable_observations = number "baseline_stable_observations" 50 1 10000000;
        default_block_seconds = number "default_block_seconds" 3600 60 604800;
        auto_isolation_seconds = number "auto_isolation_seconds" 900 60 604800;
        max_block_seconds = number "max_block_seconds" 86400 60 2592000;
        max_concurrent_blocks = number "max_concurrent_blocks" 100 0 100000;
        internal_isolation_cooldown_seconds =
            number "internal_isolation_cooldown_seconds" 900 0 86400;
        max_internal_isolations_per_hour = number "max_internal_isolations_per_hour" 1 0 100000;
        max_auto_isolation_candidates_per_run =
            number "max_auto_isolation_candidates_per_run" 3 1 100000;
        block_external = flag "block_external" false;
        isolate_internal = flag "isolate_internal" false;
        manual_confirmation = flag "manual_confirmation" true;
        protect_management_networks = flag "protect_management_networks" true;
        forbid_block_on_service_error = flag "forbid_block_on_service_error" true;
        enforce_allowlist = flag "enforce_allowlist" true;
        protected_networks = as_csv (get d "protected_networks");
        protected_hosts = as_csv (get d "protected_hosts");
        break_glass_values = as_csv (get d "break_glass_values");
      }

  -- The configuration of the five parts of the file.
  unfoldable pub config_of :
      (raw interfaces detection threat_intel response : Fields) (marker : String) → PondSecConfig
  unfolding text_default load_mode load_interfaces load_detection load_threat_intel load_response
  config_of raw interfaces detection threat_intel response marker =
      let flag = λ (key : String) (default : Bool). as_bool (get raw key) default in
      let number = λ (key : String) (default lo hi : ℕ). as_int (get raw key) default lo hi in
      record {
        enabled = flag "enabled" false;
        mode = load_mode raw;
        risk_threshold = number "risk_threshold" 70 1 100;
        max_event_rate = number "max_event_rate" 5000 1 100000;
        max_queue_length = number "max_queue_length" 10000 1 1000000;
        retention_days = number "retention_days" 30 1 3650;
        max_database_mb = number "max_database_mb" 1024 64 1048576;
        incident_rate_limit_per_minute = number "incident_rate_limit_per_minute" 60 1 100000;
        pf_action_rate_limit_per_minute = number "pf_action_rate_limit_per_minute" 20 1 100000;
        memory_warning_mb = number "memory_warning_mb" 512 32 1048576;
        cpu_warning_percent = number "cpu_warning_percent" 85 1 100;
        privacy_mode = flag "privacy_mode" true;
        anonymize_storage = flag "anonymize_storage" false;
        debug_logging = flag "debug_logging" false;
        fail_open = flag "fail_open" true;
        timezone = text_default raw "timezone" "UTC";
        language = text_default raw "language" "en";
        suricata_eve_path = text_default raw "suricata_eve_path" "/var/log/suricata/eve.json";
        interfaces = load_interfaces interfaces;
        detection = load_detection detection marker;
        threat_intel = load_threat_intel threat_intel;
        response = load_response response;
      }

  -- `loaded` is what the file holds: anything but an object counts as an empty one. A section that is
  -- neither an object nor empty has no `get`; the exceptions come in the order of the fields.
  unfoldable pub load_config : (loaded : Value) (marker : String) → Result PondSecConfig
  unfolding section_of check_numbers config_of
  load_config loaded marker = do
    let raw = as_dict loaded
    check_numbers raw top_numbers
    interfaces ← section_of (get raw "interfaces")
    detection ← section_of (get raw "detection")
    check_numbers detection detection_numbers
    threat_intel ← section_of (get raw "threat_intel")
    check_numbers threat_intel threat_intel_numbers
    response ← section_of (get raw "response")
    check_numbers response response_numbers
    ok (config_of raw interfaces detection threat_intel response marker)
