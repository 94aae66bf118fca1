-- ===== src/Storage.antt =====
-- The tables of storage/database.py that the response path reads and writes. A table is the list of
-- its rows in the order of insertion. The texts of moments that the code compares are ISO texts in
-- UTC, whose order is that of time: a moment is a number of microseconds.
pub mod Blocks
pub mod Allowlist
pub mod Incidents
pub mod Baselines
pub mod Related
pub mod Evidence
pub mod Merging
use pondsecndr.Prelude.{
  ℕ, ◌+◌, String, Bool, false, List, [], ◌∷◌, ◌++◌, Option, none, some, map, str_eq, is_empty, not,
  if◌then◌else◌,
}
use pondsecndr.Python.Float.{Float}
use pondsecndr.Python.Value.{Value, Fields}

pub data BlockStatus : Type 0 where
  proposed active removed expired rejected : BlockStatus

pub data IncidentStatus : Type 0 where
  open_case closed false_positive archived : IncidentStatus

pub record BlockEntry : Type 0 where
  pub block_id : String
  pub incident_id : Option String
  pub source_ip : String
  pub destination : Option String
  pub reason : String
  pub risk_score : ℕ
  pub confidence : Float
  pub policy_id : Option String
  pub created_at : ℕ
  pub expires_at : ℕ
  pub created_by : String
  pub automatic : Bool
  pub status : BlockStatus
  pub removal_reason : Option String

pub record AllowlistEntry : Type 0 where
  pub allowlist_id : String
  pub value : String
  pub reason : Option String
  pub created_at : ℕ
  pub expires_at : Option ℕ

-- `block_status` is none for the text "none".
pub record Host : Type 0 where
  pub ip : String
  pub risk_score : ℕ
  pub open_incidents : ℕ
  pub allowlisted : Bool
  pub block_status : Option BlockStatus
  pub learning_status : String
  pub baseline_deviation : Float

pub record Incident : Type 0 where
  pub incident_id : String
  pub title : String
  pub status : IncidentStatus
  pub risk_score : ℕ
  pub severity : ℕ
  pub confidence : Float
  pub source_ip : Option String
  pub destination_ip : Option String
  pub category : Option String
  pub created_at : ℕ
  pub updated_at : ℕ
  pub first_seen : Option ℕ
  pub last_seen : Option ℕ
  pub event_count : ℕ
  pub detection_count : ℕ
  pub affected_targets : List String
  pub attack_stage : Option String
  pub validation_tag : Option String
  pub suppressed_count : ℕ
  pub evidence : Value
  pub risk_factors : List Value

pub record Feedback : Type 0 where
  pub incident_id : String
  pub source_ip : String
  pub created_at : ℕ
  pub actor : String

pub record Baseline : Type 0 where
  pub host_ip : String
  pub observation_count : ℕ
  -- `baseline_json`, decoded.
  pub baseline : Fields

-- A row of `audit_log`, without its JSON detail.
pub record AuditRecord : Type 0 where
  pub timestamp : ℕ
  pub actor : String
  pub action : String
  pub target : Option String

pub record Store : Type 0 where
  pub blocks : List BlockEntry
  pub allowlist : List AllowlistEntry
  pub hosts : List Host
  pub incidents : List Incident
  pub incident_detections : List (String × String)
  pub baselines : List Baseline
  pub feedback : List Feedback
  pub audit_log : List AuditRecord

abbrev pub empty_store : Store
empty_store = record {
  blocks = [];
  allowlist = [];
  hosts = [];
  incidents = [];
  incident_detections = [];
  baselines = [];
  feedback = [];
  audit_log = [];
}

-- `_audit`
unfoldable pub audit : (now : ℕ) (actor action : String) (target : Option String) → Store → Store
audit now actor action target s =
    let entry : AuditRecord = record {
      timestamp = now;
      actor = actor;
      action = action;
      target = target;
    } in
    record s { audit_log = s.audit_log ++ entry ∷ [] }

-- `UPDATE hosts SET ... WHERE ip = ?`
unfoldable pub update_host : String → (Host → Host) → List Host → List Host
update_host ip f hosts = map (λ h. if str_eq h.ip ip then f h else h) hosts

-- A parameter that is neither missing nor empty.
abbrev pub given : Option String → Bool
given none = false
given (some s) = not (is_empty s)

abbrev pub is_some_text : Option String → String → Bool
is_some_text none t = false
is_some_text (some s) t = str_eq s t

-- The number of observations in the row of a host.
unfoldable pub find_baseline : String → List Baseline → ℕ
find_baseline ip [] = 0
find_baseline ip (b ∷ bs) = if str_eq b.host_ip ip then b.observation_count else find_baseline ip bs

-- `host_baseline_observations`
unfoldable pub host_baseline_observations : String → Store → ℕ
unfolding find_baseline
host_baseline_observations ip s = if is_empty ip then 0 else find_baseline ip s.baselines

-- `audit_response_decision`
unfoldable pub audit_response_decision :
    (now : ℕ) (incident_id : String) (action actor : String) → Store → Store
unfolding audit
audit_response_decision now incident_id action actor s = audit now actor action (some incident_id) s
