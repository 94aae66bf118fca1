-- ===== src/Storage/Incidents.antt =====
-- The life of an incident in storage/database.py: status changes, deletion, and the reset.
pub mod Counts
pub mod Deletion
use Prim.Native.String.{◌++◌ as concat}
use pondsecndr.Prelude.{
  ℕ, String, Bool, true, false, not, ◌&&◌, List, [], ◌∷◌, ◌++◌, Option, none, some, map, keep, any,
  first, count_if, str_eq, is_empty, if◌then◌else◌, length, ◌+◌,
}
use pondsecndr.Storage.{
  IncidentStatus, open_case, closed, false_positive, archived, Incident, Host, Store, BlockEntry,
  Feedback, audit, update_host, is_some_text,
}
use pondsecndr.Storage.Blocks.{active_response_blocks_for_incident}

abbrev status_name : IncidentStatus → String
status_name open_case = "open"
status_name closed = "closed"
status_name false_positive = "false_positive"
status_name archived = "archived"

abbrev pub is_open_case : IncidentStatus → Bool
is_open_case open_case = true
is_open_case _ = false

unfoldable pub get_incident : String → Store → Option Incident
get_incident incident_id s = first (λ i. str_eq i.incident_id incident_id) s.incidents

-- `SELECT count(*) FROM incidents WHERE status = 'open' AND source_ip = ?`
unfoldable pub open_count : String → List Incident → ℕ
open_count ip incidents =
    count_if (λ i. is_open_case i.status && is_some_text i.source_ip ip) incidents

unfoldable pub set_open_incidents : ℕ → Host → Host
set_open_incidents n h = record h { open_incidents = n }

unfoldable pub refresh_open_incidents : String → Store → Store
unfolding set_open_incidents
refresh_open_incidents ip s = record s {
  hosts = update_host ip (set_open_incidents (open_count ip s.incidents)) s.hosts;
}

unfoldable pub set_incident_status :
    (now : ℕ) → String → IncidentStatus → List Incident → List Incident
set_incident_status now incident_id status incidents =
    map
      (λ i.
        if str_eq i.incident_id incident_id
        then record i { status = status; updated_at = now }
        else i)
      incidents

-- `_record_incident_feedback`, for the status that asks for it.
record_feedback :
    (now : ℕ) (incident_id source_ip : String) (status : IncidentStatus) (actor : String)
    → Store
    → Store
record_feedback now incident_id source_ip false_positive actor s =
    let row : Feedback = record {
      incident_id = incident_id;
      source_ip = source_ip;
      created_at = now;
      actor = actor;
    } in
    record s { feedback = s.feedback ++ row ∷ [] }
record_feedback now incident_id source_ip _ actor s = s

unfoldable pub after_status :
    (now : ℕ) (incident_id : String) (source : Option String) (status : IncidentStatus)
    (actor : String)
    → Store
    → Store
unfolding refresh_open_incidents record_feedback
after_status now incident_id none status actor s = s
after_status now incident_id (some ip) status actor s =
    if is_empty ip
    then s
    else record_feedback now incident_id ip status actor (refresh_open_incidents ip s)

unfoldable pub source_of : Option Incident → Option String
source_of none = none
source_of (some i) = i.source_ip

-- `update_incident_status`; its result is whether a row has the id.
unfoldable pub update_incident_status :
    (now : ℕ) (incident_id : String) (status : IncidentStatus) (actor : String)
    → Store
    → Bool × Store
unfolding set_incident_status after_status source_of
update_incident_status now incident_id status actor s =
    let source = source_of (get_incident incident_id s) in
    let changed = any (λ i. str_eq i.incident_id incident_id) s.incidents in
    let updated = record s { incidents = set_incident_status now incident_id status s.incidents } in
    (
      changed,
      after_status now incident_id source status actor
          (audit now actor (concat "incident." (status_name status)) (some incident_id) updated),
    )

pub data DeleteResult : Type 0 where
  ok not_found : DeleteResult
  denied : List BlockEntry → DeleteResult

unfoldable pub after_delete : Option String → Store → Store
unfolding refresh_open_incidents
after_delete none s = s
after_delete (some ip) s = if is_empty ip then s else refresh_open_incidents ip s

unfoldable pub delete_rows : (now : ℕ) (actor : String) → Incident → Store → Store
unfolding after_delete
delete_rows now actor row s = audit now actor "incident.delete" (some row.incident_id) (
    after_delete row.source_ip (record s {
      incident_detections = keep (λ (i, d). not (str_eq i row.incident_id)) s.incident_detections;
      incidents = keep (λ i. not (str_eq i.incident_id row.incident_id)) s.incidents;
    }))

unfoldable pub delete_row :
    (now : ℕ) (actor : String) → Option Incident → Store → DeleteResult × Store
unfolding delete_rows
delete_row now actor none s = (not_found, s)
delete_row now actor (some row) s =
    elim (active_response_blocks_for_incident now row.incident_id s) [
      | [] ↦ (ok, delete_rows now actor row s)
      | b ∷ bs ↦ (denied (b ∷ bs), s)
    ]

unfoldable pub delete_incident :
    (now : ℕ) (incident_id actor : String) → Store → DeleteResult × Store
unfolding delete_row
delete_incident now incident_id actor s = delete_row now actor (get_incident incident_id s) s

-- `reset_runtime_state` keeps the allowlist, and records itself in the emptied log.
unfoldable pub reset_runtime_state : (now : ℕ) (actor : String) → Store → ℕ × Store
reset_runtime_state now actor s =
    let total =
      length s.incident_detections
      + length s.blocks
      + length s.incidents
      + length s.baselines
      + length s.hosts
      + length s.feedback
      + length s.audit_log
      + 1 in
    (
      total,
      audit now actor "database.reset_runtime_state" none (record s {
        blocks = [];
        hosts = [];
        incidents = [];
        incident_detections = [];
        baselines = [];
        feedback = [];
        audit_log = [];
      }),
    )
