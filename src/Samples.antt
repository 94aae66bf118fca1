-- ===== src/Samples.antt =====
-- A concrete machine and configuration, on which the theorems are tried: floats are hundredths, and
-- the library of addresses knows one internal host and one external one.
use pondsecndr.Prelude.{
  List, ℕ, ◌+◌, refl, any, ◌*◌, ◌/◌, ◌-◌, String, true, false, [], ◌∷◌, Option, none, some, ltb,
  leb, ◌==◌, str_eq, ◌&&◌, ◌||◌, if◌then◌else◌,
}
use pondsecndr.Prelude.Int.{pos, pos_part}
use pondsecndr.Python.Float.{Float, Floats}
use pondsecndr.Python.Value.{null, Texts}
use pondsecndr.Python.Ipaddress.{v4, Address, Network, Ipaddress}
use pondsecndr.Detection.{Tools}
use pondsecndr.Config.{PondSecConfig, InterfaceConfig, DetectionConfig, ResponseConfig}
use pondsecndr.Config.Load.{Conversions}
use pondsecndr.Storage.{BlockEntry, proposed, active, open_case, Incident, Host, Store, empty_store}
use pondsecndr.Storage.Blocks.Ids.{UniqueIds}
use pondsecndr.Response.Policy.{Platform}
use pondsecndr.Response.Pf.{completed, Shell, Enforcer}
use pondsecndr.Response.Engine.{System, Call}

abbrev pub hundredths : ℕ → Float
hundredths n = record { bits = n }

abbrev pub total_bits : List Float → ℕ
total_bits [] = 0
total_bits (x ∷ xs) = x.bits + total_bits xs

abbrev pub floats : Floats
floats = record {
  of_int = λ n. hundredths (pos_part n * 100);
  decimal = λ d e. hundredths (if e == 0 then d * 100 else d);
  sum = λ xs. hundredths (total_bits xs);
  add = λ x y. hundredths (x.bits + y.bits);
  mul = λ x y. hundredths (x.bits * y.bits / 100);
  div = λ x y. hundredths (if y.bits == 0 then 0 else x.bits * 100 / y.bits);
  lt = λ x y. ltb x.bits y.bits;
  is_zero = λ x. x.bits == 0;
  is_finite = λ x. true;
  is_nan = λ x. false;
  trunc = λ x. pos (x.bits / 100);
  round = λ x n. x;
}

abbrev pub texts : Texts
texts = record { repr = λ v. "value"; parse_int = λ s. none; parse_float = λ s. none }

abbrev pub internal_host : String
internal_host = "10.0.0.5"

abbrev pub external_host : String
external_host = "203.0.113.7"

abbrev pub internal_number : ℕ
internal_number = 0x0a00_0005

abbrev pub external_number : ℕ
external_number = 0xcb00_7107

abbrev address : ℕ → Option Address
address n = some (record { version = v4; number = n })

abbrev single : ℕ → Option Network
single n = some (record { version = v4; network_address = n; broadcast_address = n })

abbrev pub ipaddress : Ipaddress
ipaddress = record {
  ip_address = λ s.
      if str_eq s internal_host
      then address internal_number
      else if str_eq s external_host
      then address external_number
      else none;
  ip_network = λ s.
      if str_eq s internal_host || str_eq s "10.0.0.5/32"
      then single internal_number
      else if str_eq s external_host || str_eq s "203.0.113.7/32"
      then single external_number
      else none;
  show_address = λ a. if a.number == internal_number then internal_host else external_host;
  show_network = λ n. if n.network_address == internal_number then internal_host else external_host;
  is_private = λ a. leb 0x0a00_0000 a.number && leb a.number 0x0aff_ffff;
}

abbrev pub platform : Platform
platform = record {
  floats = floats;
  texts = texts;
  ipaddress = ipaddress;
  parse_datetime = λ s. if str_eq s "start" then some 1000 else none;
}

abbrev pub tools : Tools
tools = record {
  floats = floats;
  texts = texts;
  ipaddress = ipaddress;
  le = λ x y. leb x.bits y.bits;
  sub = λ x y. hundredths (x.bits - y.bits);
  true_div = λ a b. hundredths (if pos_part b == 0 then 0 else pos_part a * 100 / pos_part b);
  mean = λ xs. hundredths 100;
  pstdev = λ xs. hundredths 0;
  parse_time = λ s. none;
  now = "now";
  detection_uuid = λ detector_id source_ip destination_ip title evidence. detector_id;
}

-- Every command succeeds, and prints a rule that blocks the table.
abbrev pub shell : Shell
shell = record {
  runner = λ ran command. completed (pos 0) "block drop from <pondsecndr_blocked>" "";
  json_loads = λ s. none;
  skip_configctl = false;
}

abbrev pub enforcer : Enforcer
enforcer = record { table = "pondsecndr_blocked"; allow_configctl = true }

abbrev pub conversions : Conversions
conversions = record { to_int = λ v. none; overflows = λ v. false; split_commas = λ s. s ∷ [] }

abbrev pub interfaces : InterfaceConfig
interfaces = record {
  monitored = "lan" ∷ [];
  monitored_devices = [];
  direction = "both";
  internal = [];
  internal_devices = [];
  wan = [];
  wan_devices = [];
  management = [];
  management_devices = [];
  excluded_interfaces = "guest" ∷ [];
  excluded_devices = [];
  excluded_networks = [];
  excluded_hosts = [];
}

-- The learning phase has its start at `start`, and ends after 14 days.
abbrev pub detection : DetectionConfig
detection = record {
  suricata_events = true;
  dns_analysis = true;
  tls_analysis = true;
  http_metadata = true;
  portscan = true;
  lateral_movement = true;
  beaconing = true;
  dns_tunneling = true;
  exfiltration = true;
  unusual_destinations = true;
  unusual_services = true;
  unusual_internal = true;
  machine_learning = true;
  learning_mode = true;
  learning_started_at = "start";
  learning_days = 14;
  early_ai_activation_override = false;
  learning_phase_observations = 1000;
  minimum_observations = 50;
  minimum_incident_confidence = 75;
  correlation_window_minutes = 30;
  false_positive_feedback_days = 14;
}

-- The defaults, with responses to external hosts enforced.
abbrev pub response : ResponseConfig
response = record {
  mode = "enforce";
  ai_full_decision_mode = false;
  kill_switch = false;
  maintenance_mode = false;
  automatic_blocking = true;
  minimum_confidence = 95;
  minimum_risk_score = 95;
  minimum_severity = 9;
  min_internal_event_count = 3;
  min_internal_detection_count = 3;
  min_internal_categories = 3;
  min_supporting_indicators = 2;
  min_independent_engines = 2;
  baseline_stable_observations = 50;
  default_block_seconds = 3600;
  auto_isolation_seconds = 900;
  max_block_seconds = 86400;
  max_concurrent_blocks = 100;
  internal_isolation_cooldown_seconds = 900;
  max_internal_isolations_per_hour = 1;
  max_auto_isolation_candidates_per_run = 3;
  block_external = true;
  isolate_internal = false;
  manual_confirmation = true;
  protect_management_networks = true;
  forbid_block_on_service_error = true;
  enforce_allowlist = true;
  protected_networks = [];
  protected_hosts = [];
  break_glass_values = [];
}

abbrev pub config : PondSecConfig
config = record {
  enabled = true;
  mode = "prevent";
  risk_threshold = 70;
  max_event_rate = 5000;
  max_queue_length = 10000;
  retention_days = 30;
  max_database_mb = 1024;
  incident_rate_limit_per_minute = 60;
  pf_action_rate_limit_per_minute = 20;
  memory_warning_mb = 512;
  cpu_warning_percent = 85;
  privacy_mode = true;
  anonymize_storage = false;
  debug_logging = false;
  fail_open = true;
  timezone = "UTC";
  language = "en";
  suricata_eve_path = "/var/log/suricata/eve.json";
  interfaces = interfaces;
  detection = detection;
  threat_intel = record {
    cve_enrichment = true;
    external_lookup = false;
    cache_ttl_hours = 24;
    api_timeout_seconds = 5;
  };
  response = response;
}

-- An external attacker, beyond every threshold, 100 days after the start.
abbrev pub now : ℕ
now = 8640000000000

abbrev pub incident : Incident
incident = record {
  incident_id = "case-1";
  title = "External scan";
  status = open_case;
  risk_score = 97;
  severity = 9;
  confidence = hundredths 98;
  source_ip = some external_host;
  destination_ip = some internal_host;
  category = some "reconnaissance";
  created_at = 0;
  updated_at = 0;
  first_seen = none;
  last_seen = none;
  event_count = 5;
  detection_count = 4;
  affected_targets = [];
  attack_stage = some "reconnaissance";
  validation_tag = none;
  suppressed_count = 0;
  evidence = null;
  risk_factors = [];
}

abbrev pub host : Host
host = record {
  ip = external_host;
  risk_score = 97;
  open_incidents = 1;
  allowlisted = false;
  block_status = none;
  learning_status = "learning";
  baseline_deviation = hundredths 0;
}

abbrev pub store : Store
store = record empty_store { hosts = host ∷ []; incidents = incident ∷ [] }

-- A block of the attacker that is proposed, and one that is past its end.
abbrev pub block : BlockEntry
block = record {
  block_id = "block-1";
  incident_id = some "case-1";
  source_ip = external_host;
  destination = none;
  reason = "Response proposal for incident case-1";
  risk_score = 97;
  confidence = hundredths 98;
  policy_id = none;
  created_at = 100;
  expires_at = now + 1000;
  created_by = "auto-prevent";
  automatic = true;
  status = proposed;
  removal_reason = none;
}

abbrev pub old_block : BlockEntry
old_block = record block { block_id = "block-0"; expires_at = 200; status = active }

abbrev pub blocked_store : Store
blocked_store = record store { blocks = old_block ∷ block ∷ [] }

-- Their ids differ.
pub blocked-UniqueIds : UniqueIds blocked_store.blocks
unfolding UniqueIds any
blocked-UniqueIds = (refl, (refl, tt))

abbrev pub system : System
system = record { store = blocked_store; commands = [] }

abbrev pub call : Call
call = record { now = now; fresh = "block-2"; actor = "auto-prevent" }
