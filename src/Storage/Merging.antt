-- ===== src/Storage/Merging.antt =====
-- How storage/database.py merges incidents: _merge_incident, insert_incidents and merge_incidents.
pub mod Rows
pub mod Lookup
pub mod Totals
pub mod Batch
pub mod Joined
use Prim.Native.String.{◌++◌ as concat}
use pondsecndr.Prelude.{
  ℕ, ◌+◌, ◌-◌, ◌*◌, max, min, String, Bool, true, false, not, ◌&&◌, ◌||◌, List, [], ◌∷◌, ◌++◌,
  Option, none, some, map, keep, any, first, take, ltb, str_eq, is_empty, starts_with, sorted_set,
  if◌then◌else◌,
}
use pondsecndr.Python.Float.{float_max}
use pondsecndr.Python.Value.{Value, obj, as_dict}
use pondsecndr.Python.Result.{Result, ok, raise, ◌>>=◌, integrity_error}
use pondsecndr.Detection.{Tools}
use pondsecndr.Storage.{Incident, archived, Host, Store, audit, update_host}
use pondsecndr.Storage.Blocks.{microseconds, coalesce}
use pondsecndr.Storage.Incidents.{open_count, is_open_case, get_incident}
use pondsecndr.Storage.Related.{
  Incoming, or_moment, given_list, dedupe_window_seconds, detections_of, named, prepare,
  incident_related, is_candidate,
}
use pondsecndr.Storage.Evidence.{merge_evidence, merge_risk_factors}

-- `ORDER BY COALESCE(last_seen, updated_at) DESC LIMIT 50`: the latest first.
unfoldable pub insert_by_seen : Incident → List Incident → List Incident
insert_by_seen i [] = i ∷ []
insert_by_seen i (j ∷ js) =
    if ltb (or_moment i.last_seen i.updated_at) (or_moment j.last_seen j.updated_at)
    then j ∷ insert_by_seen i js
    else i ∷ j ∷ js

unfoldable pub latest_seen : List Incident → List Incident
unfolding insert_by_seen
latest_seen [] = []
latest_seen (i ∷ is) = insert_by_seen i (latest_seen is)

abbrev pub is_same : Option String → String → Bool
is_same none t = false
is_same (some s) t = str_eq s t

abbrev pub first_text : List String → String → String
first_text [] default = default
first_text (s ∷ ss) default = s

abbrev pub is_new {ℓ} : {A : Type ℓ} → Option A → Bool
is_new none = true
is_new (some a) = false

-- The category or stage of two, which is mixed if the incoming one differs.
unfoldable pub merged_stage : (existing incoming : Option String) → Option String
merged_stage existing none = existing
merged_stage existing (some s) =
    if is_empty s || is_same existing s then existing else some "multi_stage"

unfoldable pub merged_title :
    Incident → Incoming → (targets : List String) → (category : Option String) → String
merged_title row i targets category =
    let source = first_text (given_list row.source_ip ++ given_list i.source_ip) "unknown source" in
    let target = first_text (targets ++ given_list i.destination_ip) "unknown target" in
    if is_same category "multi_stage" && not (starts_with row.title "Multi-stage")
    then concat "Multi-stage activity from " (concat source (concat " to " target))
    else row.title

-- `UPDATE incidents SET ... WHERE incident_id = ?`
unfoldable pub replace_incident : Incident → List Incident → List Incident
replace_incident row incidents =
    map (λ i. if str_eq i.incident_id row.incident_id then row else i) incidents

-- The row of `_insert_incident`.
unfoldable pub new_row : Incoming → Incident
new_row i = record {
  incident_id = i.incident_id;
  title = i.title;
  status = i.status;
  risk_score = i.risk_score;
  severity = i.severity;
  confidence = i.confidence;
  source_ip = i.source_ip;
  destination_ip = i.destination_ip;
  category = i.category;
  created_at = i.created_at;
  updated_at = i.updated_at;
  first_seen = i.first_seen;
  last_seen = i.last_seen;
  event_count = i.event_count;
  detection_count = i.detection_count;
  affected_targets = i.affected_targets;
  attack_stage = i.attack_stage;
  validation_tag = i.validation_tag;
  suppressed_count = i.suppressed_count;
  evidence = obj i.evidence;
  risk_factors = i.risk_factors;
}

-- `INSERT OR IGNORE INTO incident_detections`
unfoldable pub link : String → List String → List (String × String) → List (String × String)
link incident_id [] links = links
link incident_id (d ∷ ds) links = link incident_id ds (
    if any (λ (i, e). str_eq i incident_id && str_eq e d) links
    then links
    else links ++ (incident_id, d) ∷ [])

unfoldable pub set_open_risk : (risk_score open_incidents : ℕ) → Host → Host
set_open_risk risk_score open_incidents h = record h {
  risk_score = max h.risk_score risk_score;
  open_incidents = open_incidents;
}

-- `_refresh_host_incident_count`, of a source that is given.
unfoldable pub refresh_host_incident_count : Option String → (risk_score : ℕ) → Store → Store
unfolding set_open_risk
refresh_host_incident_count none risk_score s = s
refresh_host_incident_count (some ip) risk_score s = if is_empty ip then s else record s {
  hosts = update_host ip (set_open_risk risk_score (open_count ip s.incidents)) s.hosts;
}

unfoldable pub archive : (now : ℕ) → String → List Incident → List Incident
archive now incident_id incidents =
    map
      (λ i.
        if str_eq i.incident_id incident_id
        then record i { status = archived; updated_at = now }
        else i)
      incidents

pub data MergeResult : Type 0 where
  merged not_found itself : MergeResult

unfoldable pub links_of : String → List (String × String) → List String
links_of incident_id [] = []
links_of incident_id ((i, d) ∷ links) =
    if str_eq i incident_id then d ∷ links_of incident_id links else links_of incident_id links

-- The rest of the round, of the prepared record: the links and the host of the source.
unfoldable pub linked : Incoming → String × Store → Store
unfolding link refresh_host_incident_count
linked i (id, kept) =
    refresh_host_incident_count i.source_ip i.risk_score
      (record kept { incident_detections = link id i.detection_ids kept.incident_detections })

module _ (tools : Tools) where
  -- `_find_merge_incident`, of a prepared record.
  unfoldable pub find_merge_incident : Incoming → List Incident → Option Incident
  unfolding latest_seen is_candidate incident_related
  find_merge_incident i incidents =
      let cutoff = or_moment i.first_seen i.created_at - dedupe_window_seconds * microseconds in
      if is_open_case i.status
      then first (λ row. incident_related tools row i)
          (take 50 (latest_seen (keep (is_candidate tools cutoff i) incidents)))
      else none

  -- `_row_to_prepared_incident`
  unfoldable pub row_to_prepared : Incident → Incoming
  row_to_prepared row = record {
    incident_id = row.incident_id;
    title = row.title;
    status = row.status;
    risk_score = row.risk_score;
    severity = row.severity;
    confidence = row.confidence;
    source_ip = row.source_ip;
    destination_ip = row.destination_ip;
    category = row.category;
    created_at = row.created_at;
    updated_at = row.updated_at;
    first_seen = some (or_moment row.first_seen row.created_at);
    last_seen = some (or_moment row.last_seen row.updated_at);
    event_count = row.event_count;
    detection_count = row.detection_count;
    affected_targets = row.affected_targets;
    attack_stage = row.attack_stage;
    validation_tag = row.validation_tag;
    suppressed_count = row.suppressed_count;
    evidence = as_dict row.evidence;
    risk_factors = row.risk_factors;
    detection_ids = named tools "detection_id" (detections_of tools (as_dict row.evidence));
  }

module _ (tools : Tools) (dumps : Value → String) where
  -- The row after `_merge_incident`.
  unfoldable pub merge_row : Incident → Incoming → Incident
  unfolding merge_evidence merge_risk_factors merged_stage merged_title
  merge_row row i =
      let targets = sorted_set (row.affected_targets ++ i.affected_targets) in
      let category = merged_stage row.category i.category in
      record row {
        title = merged_title row i targets category;
        risk_score = max row.risk_score i.risk_score;
        severity = max row.severity i.severity;
        confidence = float_max tools.floats row.confidence i.confidence;
        destination_ip = coalesce row.destination_ip i.destination_ip;
        category = category;
        updated_at = max row.updated_at i.updated_at;
        first_seen =
            some
              (min (or_moment row.first_seen row.created_at) (or_moment i.first_seen i.created_at));
        last_seen =
            some
              (max (or_moment row.last_seen row.updated_at) (or_moment i.last_seen i.updated_at));
        event_count = row.event_count + i.event_count;
        detection_count = row.detection_count + i.detection_count;
        affected_targets = targets;
        attack_stage = merged_stage row.attack_stage i.attack_stage;
        validation_tag = coalesce row.validation_tag i.validation_tag;
        suppressed_count = row.suppressed_count + 1 + i.suppressed_count;
        evidence = obj (merge_evidence tools dumps row.evidence i.evidence);
        risk_factors = merge_risk_factors tools dumps row.risk_factors i.risk_factors;
      }

  -- One round of the loop of `insert_incidents`, of a prepared record: the id under which it is kept,
  -- and the store. `incident_id` is the primary key, so an id that is there already raises.
  unfoldable pub keep_incident : Incoming → Option Incident → Store → Result (String × Store)
  unfolding merge_row replace_incident new_row
  keep_incident i none s =
      if any (λ row. str_eq row.incident_id i.incident_id) s.incidents
      then raise integrity_error
      else ok (i.incident_id, record s { incidents = s.incidents ++ new_row i ∷ [] })
  keep_incident i (some row) s =
      ok (row.incident_id, record s { incidents = replace_incident (merge_row row i) s.incidents })

  unfoldable pub insert_incident : (now : ℕ) → Incoming → Store → Result (Bool × Incoming × Store)
  unfolding prepare find_merge_incident keep_incident linked
  insert_incident now incident s =
      let i = prepare tools now incident in
      let existing = find_merge_incident tools i s.incidents in
      keep_incident i existing s >>= λ kept.
      ok (is_new existing, record incident { incident_id = kept.0 }, linked i kept)

  -- `insert_incidents`: how many rows are new, and the incidents, which take the ids of the rows that
  -- they are merged into. An exception leaves the store as it was.
  unfoldable pub insert_incidents :
      (now : ℕ) → List Incoming → Store → Result (ℕ × List Incoming × Store)
  unfolding insert_incident
  insert_incidents now [] s = ok (0, [], s)
  insert_incidents now (incident ∷ rest) s =
      insert_incident now incident s >>= λ (created, kept, after).
      insert_incidents now rest after >>= λ (count, others, last).
      ok ((if created then count + 1 else count), kept ∷ others, last)

  unfoldable pub merge_rows :
      (now : ℕ) (primary_id secondary_id actor : String) (primary secondary : Option Incident)
      → Store
      → MergeResult × Store
  unfolding merge_row replace_incident row_to_prepared archive link links_of
  merge_rows now primary_id secondary_id actor (some primary) (some secondary) s = (
    merged,
    audit now actor "case.merge" (some primary_id) (record s {
      incidents =
          archive now secondary_id
            (replace_incident (merge_row primary (row_to_prepared tools secondary)) s.incidents);
      incident_detections =
          link primary_id (links_of secondary_id s.incident_detections) s.incident_detections;
    }),
  )
  merge_rows now primary_id secondary_id actor _ _ s = (not_found, s)

  unfoldable pub merge_incidents :
      (now : ℕ) (primary_id secondary_id actor : String) → Store → MergeResult × Store
  unfolding merge_rows
  merge_incidents now primary_id secondary_id actor s =
      if str_eq primary_id secondary_id
      then (itself, s)
      else merge_rows now primary_id secondary_id actor (get_incident primary_id s)
          (get_incident secondary_id s) s
