-- ===== src/Examples/Storage.antt =====
-- The theorems on the tables of storage/database.py, on samples.
use pondsecndr.Prelude.{
  keep, starts_with, ℕ, List, str_eq, true, refl, count_if, [], ◌∷◌, ◌≡◌, false, some, none, any,
  first,
}
use pondsecndr.Storage.{closed, open_case, removed, proposed, Store}
use pondsecndr.Storage.Blocks.{
  is_due, current_host_block_status, active_block_count, expire_block_entries, update_block_status,
}
use pondsecndr.Storage.Blocks.Expiry.{
  expire_due, expire_block_entries-blocks, expire_block_entries_complete,
}
use pondsecndr.Storage.Blocks.HostStatus.{HasStatuses, update_block_status-HasStatuses}
use pondsecndr.Storage.Incidents.{
  open_count, is_open_case, update_incident_status, delete_incident, get_incident,
}
use pondsecndr.Storage.Incidents.Counts
use pondsecndr.Storage.Incidents.Counts.{update_incident_status-HasCounts}
use pondsecndr.Storage.Incidents.Deletion.{Deleted, delete_incident-Deleted}
use pondsecndr.Python.Value.{get, truthy, end}
use pondsecndr.Storage.Related.{Incoming}
use pondsecndr.Storage.Merging.{insert_incidents, merged, merge_incidents}
use pondsecndr.Storage.Merging.Joined.{Joined, merge_incidents-Joined}
use pondsecndr.Python.Result.{Result, ok, raise, integrity_error}
use pondsecndr.Storage.Merging.Rows.{sum_of}
use pondsecndr.Storage.Merging.Totals.{Inserted}
use pondsecndr.Storage.Merging.Batch.{
  events_of, detections_in, insert_incidents-Inserted, insert_incidents_raises,
}
use pondsecndr.Samples

expire_block_entries-blocks_example :
    (expire_block_entries Samples.now "maintenance" Samples.blocked_store).1.blocks
    ≡ expire_due Samples.now Samples.blocked_store.blocks
expire_block_entries-blocks_example =
    expire_block_entries-blocks Samples.now "maintenance" Samples.blocked_store
      Samples.blocked-UniqueIds

expire_block_entries_complete_example :
    (any
        (is_due Samples.now)
        (expire_block_entries Samples.now "maintenance" Samples.blocked_store).1.blocks
      ≡ false)
    × (active_block_count Samples.now
          (expire_block_entries Samples.now "maintenance" Samples.blocked_store).1
        ≡ active_block_count Samples.now Samples.blocked_store)
expire_block_entries_complete_example =
    expire_block_entries_complete Samples.now "maintenance" Samples.blocked_store
      Samples.blocked-UniqueIds

incident-UniqueIds : Counts.UniqueIds Samples.store.incidents
unfolding Counts.UniqueIds any
incident-UniqueIds = (refl, tt)

store-HasCounts : Counts.HasCounts Samples.store
unfolding open_count count_if
store-HasCounts = (refl, tt)

update_incident_status-HasCounts_example :
    Counts.HasCounts (update_incident_status Samples.now "case-1" closed "admin" Samples.store).1
update_incident_status-HasCounts_example =
    update_incident_status-HasCounts Samples.now "case-1" closed "admin" Samples.store
      incident-UniqueIds (refl, tt) store-HasCounts

delete_incident-Deleted_example :
    Deleted Samples.now "case-1" Samples.blocked_store
      (delete_incident Samples.now "case-1" "admin" Samples.blocked_store).0
      (delete_incident Samples.now "case-1" "admin" Samples.blocked_store).1
delete_incident-Deleted_example =
    delete_incident-Deleted Samples.now "case-1" "admin" Samples.blocked_store

abbrev shown_store : Store
shown_store = record Samples.blocked_store {
  hosts = record Samples.host { block_status = some proposed } ∷ [];
}

shown-HasStatuses : HasStatuses Samples.now shown_store
unfolding current_host_block_status any
shown-HasStatuses = (refl, tt)

update_block_status-HasStatuses_example :
    HasStatuses Samples.now
      (update_block_status Samples.now "block-1" removed (some "manual") "admin" shown_store).1
update_block_status-HasStatuses_example =
    update_block_status-HasStatuses Samples.now "block-1" removed (some "manual") "admin"
      shown_store Samples.blocked-UniqueIds shown-HasStatuses

-- An incident that continues the one in the table.
abbrev incoming : Incoming
incoming = record {
  incident_id = "case-2";
  title = "External scan";
  status = open_case;
  risk_score = 98;
  severity = 9;
  confidence = Samples.hundredths 98;
  source_ip = some Samples.external_host;
  destination_ip = some Samples.internal_host;
  category = some "lateral_movement";
  created_at = 10;
  updated_at = 10;
  first_seen = none;
  last_seen = none;
  event_count = 3;
  detection_count = 2;
  affected_targets = [];
  attack_stage = none;
  validation_tag = none;
  suppressed_count = 0;
  evidence = end;
  risk_factors = [];
  detection_ids = "d4" ∷ [];
}

abbrev report_or : Store → Result (ℕ × List Incoming × Store) → ℕ × List Incoming × Store
report_or s (ok r) = r
report_or s (raise e) = (0, [], s)

abbrev inserted : ℕ × List Incoming × Store
inserted =
    report_or Samples.store
      (insert_incidents Samples.tools (λ v. "value") Samples.now (incoming ∷ []) Samples.store)

inserted_lem :
    insert_incidents Samples.tools (λ v. "value") Samples.now (incoming ∷ []) Samples.store
    ≡ ok inserted
unfolding insert_incidents first keep get truthy starts_with
inserted_lem = refl

insert_incidents-Inserted_example :
    Inserted
      (sum_of (events_of Samples.tools Samples.now) (incoming ∷ []))
      (sum_of (detections_in Samples.tools Samples.now) (incoming ∷ []))
      inserted.0
      Samples.store
      inserted.2
insert_incidents-Inserted_example =
    insert_incidents-Inserted Samples.tools (λ v. "value") Samples.now (incoming ∷ []) Samples.store
      incident-UniqueIds inserted_lem

-- The store whose only incident is closed.
abbrev closed_store : Store
closed_store = record Samples.store { incidents = record Samples.incident { status = closed } ∷ [] }

nothing_open : any (λ row. is_open_case row.status) closed_store.incidents ≡ false
unfolding any
nothing_open = refl

known_again : any (λ row. str_eq row.incident_id "case-1") closed_store.incidents ≡ true
unfolding any
known_again = refl

insert_incidents_raises_example :
    insert_incidents Samples.tools
      (λ v. "value")
      Samples.now
      (record incoming { incident_id = "case-1" } ∷ [])
      closed_store
    ≡ raise integrity_error
insert_incidents_raises_example =
    insert_incidents_raises Samples.tools (λ v. "value") Samples.now
      (record incoming { incident_id = "case-1" }) [] closed_store nothing_open known_again

-- The store with a second incident.
abbrev two_cases : Store
two_cases = record Samples.store {
  incidents =
      Samples.incident ∷ record Samples.incident { incident_id = "case-2"; event_count = 2 } ∷ [];
}

two-UniqueIds : Counts.UniqueIds two_cases.incidents
unfolding Counts.UniqueIds any
two-UniqueIds = (refl, (refl, tt))

found_first : get_incident "case-1" two_cases ≡ some Samples.incident
unfolding get_incident first
found_first = refl

found_second :
    get_incident "case-2" two_cases
    ≡ some (record Samples.incident { incident_id = "case-2"; event_count = 2 })
unfolding get_incident first
found_second = refl

merge_incidents-Joined_example :
    ((merge_incidents Samples.tools
        (λ v. "value")
        Samples.now
        "case-1"
        "case-2"
        "admin"
        two_cases).0
      ≡ merged)
    × Joined Samples.now Samples.incident
        (record Samples.incident { incident_id = "case-2"; event_count = 2 })
        two_cases
        (merge_incidents Samples.tools
          (λ v. "value")
          Samples.now
          "case-1"
          "case-2"
          "admin"
          two_cases).1
merge_incidents-Joined_example =
    merge_incidents-Joined Samples.tools (λ v. "value") Samples.now "admin" Samples.incident
      (record Samples.incident { incident_id = "case-2"; event_count = 2 }) two_cases refl
      two-UniqueIds found_first found_second
