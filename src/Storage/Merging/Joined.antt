-- ===== src/Storage/Merging/Joined.antt =====
-- What merge_incidents of storage/database.py does to the table, and what it leaves as it was.
use pondsecndr.Prelude.{
  ℕ, ◌+◌, ◌≡◌, refl, sym, subst, ◌∙◌, arith, String, false, List, some, first, str_eq, eq_iff, max,
  sorted_set, ◌++◌, if◌then◌else◌, ◌&&◌,
}
use pondsecndr.Python.Value.{Value}
use pondsecndr.Detection.{Tools}
use pondsecndr.Storage.{Incident, Store, archived, is_some_text, audit}
use pondsecndr.Storage.Incidents.{open_count, is_open_case, get_incident}
use pondsecndr.Storage.Incidents.Counts.{UniqueIds}
use pondsecndr.Storage.Merging.{
  merged, merge_row, row_to_prepared, replace_incident, archive, merge_rows, merge_incidents,
}
use pondsecndr.Storage.Merging.Rows.{
  IsIn, sum_of, has_id, KeepsId, first-IsIn, count_if-sum_of, change_rows, change_rows-sum_of,
  replace_incident-UniqueIds, change_rows-IsIn, replace_incident-sum_of,
}
use pondsecndr.Storage.Merging.Lookup.{first-change_rows, first-unchanged}

-- The second row afterwards.
abbrev pub closed_row : (now : ℕ) → Incident → Incident
closed_row now i = record i { status = archived; updated_at = now }

-- The first row afterwards.
pub record Absorbed (row other kept : Incident) : Type 0 where
  pub event_count : kept.event_count ≡ row.event_count + other.event_count
  pub detection_count : kept.detection_count ≡ row.detection_count + other.detection_count
  pub risk_score : kept.risk_score ≡ max row.risk_score other.risk_score
  pub severity : kept.severity ≡ max row.severity other.severity
  pub affected_targets :
      kept.affected_targets ≡ sorted_set (row.affected_targets ++ other.affected_targets)
  pub status : kept.status ≡ row.status
  pub source_ip : kept.source_ip ≡ row.source_ip

-- The store after a merge of two incidents.
pub record Joined (now : ℕ) (row other : Incident) (before after : Store) : Type 0 where
  pub first_row :
      (kept : Incident) × (get_incident row.incident_id after ≡ some kept) × Absorbed row other kept
  pub second_row : get_incident other.incident_id after ≡ some (closed_row now other)
  pub other_rows :
      (id : String)
      → str_eq row.incident_id id ≡ false
      → str_eq other.incident_id id ≡ false
      → get_incident id after ≡ get_incident id before
  pub hosts : after.hosts ≡ before.hosts
  pub events :
      sum_of (λ row. row.event_count) after.incidents
      ≡ sum_of (λ row. row.event_count) before.incidents + other.event_count
  pub counts :
      (ip : String)
      → open_count ip after.incidents
          + (if is_open_case other.status && is_some_text other.source_ip ip then 1 else 0)
        ≡ open_count ip before.incidents

-- A total after the merge, when the first row has become `new`.
joined-sum_of :
    (f : Incident → ℕ) (now : ℕ) (row other new : Incident) (is : List Incident)
    → new.incident_id ≡ row.incident_id
    → str_eq other.incident_id row.incident_id ≡ false
    → UniqueIds is
    → IsIn row is
    → IsIn other is
    → sum_of f (archive now other.incident_id (replace_incident new is)) + f other + f row
      ≡ sum_of f is + f new + f (closed_row now other)
unfolding archive replace_incident change_rows
joined-sum_of f now row other new is e d u m n =
    let apart : str_eq other.incident_id new.incident_id ≡ false =
      subst (λ id. str_eq other.incident_id id ≡ false) (sym e) d in
    omega (
      arith,
      replace_incident-sum_of f row new is e u m,
      change_rows-sum_of f (closed_row now) other (replace_incident new is)
          (replace_incident-UniqueIds new is u)
          (change_rows-IsIn new.incident_id (λ i. new) other is apart n),
    )

apart_sym : (a b : String) → str_eq a b ≡ false → str_eq b a ≡ false
apart_sym a b d = ground (arith, d, eq_iff a b, eq_iff b a)

replaced-KeepsId : (new : Incident) → KeepsId new.incident_id (λ i. new)
replaced-KeepsId new i hit = sym ((eq_iff i.incident_id new.incident_id).0 hit)

closed-KeepsId : (now : ℕ) (id : String) → KeepsId id (closed_row now)
closed-KeepsId now id i hit = refl

module _ (now : ℕ) (row other new : Incident) (is : List Incident)
    (e : new.incident_id ≡ row.incident_id) where
  first_row :
      str_eq other.incident_id row.incident_id ≡ false
      → first (has_id row.incident_id) is ≡ some row
      → first (has_id row.incident_id) (archive now other.incident_id (replace_incident new is))
        ≡ some new
  unfolding archive replace_incident change_rows
  first_row d found =
      first-unchanged other.incident_id row.incident_id (closed_row now) (replace_incident new is)
        (closed-KeepsId now other.incident_id) d
      ∙ subst
          (λ id.
            first (has_id id) is ≡ some row
            → first (has_id id) (replace_incident new is) ≡ some new)
          e (first-change_rows new.incident_id (λ i. new) row is (replaced-KeepsId new)) found

  second_row :
      str_eq row.incident_id other.incident_id ≡ false
      → first (has_id other.incident_id) is ≡ some other
      → first (has_id other.incident_id) (archive now other.incident_id (replace_incident new is))
        ≡ some (closed_row now other)
  unfolding archive replace_incident change_rows
  second_row d found =
      first-change_rows other.incident_id (closed_row now) other (replace_incident new is)
        (closed-KeepsId now other.incident_id)
        (first-unchanged new.incident_id other.incident_id (λ i. new) is (replaced-KeepsId new)
            (subst (λ id. str_eq id other.incident_id ≡ false) (sym e) d)
          ∙ found)

  other_row :
      (id : String)
      → str_eq row.incident_id id ≡ false
      → str_eq other.incident_id id ≡ false
      → first (has_id id) (archive now other.incident_id (replace_incident new is))
        ≡ first (has_id id) is
  unfolding archive replace_incident change_rows
  other_row id r o =
      first-unchanged other.incident_id id (closed_row now) (replace_incident new is)
        (closed-KeepsId now other.incident_id) o
      ∙ first-unchanged new.incident_id id (λ i. new) is (replaced-KeepsId new)
          (subst (λ x. str_eq x id ≡ false) (sym e) r)

abbrev counted : String → Incident → ℕ
counted ip row = if is_open_case row.status && is_some_text row.source_ip ip then 1 else 0

module _ (tools : Tools) (dumps : Value → String) where
  merge_rows-ok :
      (now : ℕ) (primary_id secondary_id actor : String) (row other : Incident) (s : Store)
      → (merge_rows tools dumps now primary_id secondary_id actor (some row) (some other) s).0
        ≡ merged
  unfolding merge_rows
  merge_rows-ok now primary_id secondary_id actor row other s = refl

  rows-Joined :
      (now : ℕ) (actor : String) (row other : Incident) (s : Store)
      → str_eq other.incident_id row.incident_id ≡ false
      → UniqueIds s.incidents
      → first (has_id row.incident_id) s.incidents ≡ some row
      → first (has_id other.incident_id) s.incidents ≡ some other
      → Joined now row other s
          (merge_rows tools dumps now row.incident_id other.incident_id actor
            (some row)
            (some other)
            s).1
  unfolding merge_rows merge_row row_to_prepared audit open_count get_incident
  rows-Joined now actor row other s d u found also =
      let m = first-IsIn _ row s.incidents found in
      let n = first-IsIn _ other s.incidents also in
      let new = merge_row tools dumps row (row_to_prepared tools other) in
      let after = archive now other.incident_id (replace_incident new s.incidents) in
      let apart : str_eq row.incident_id other.incident_id ≡ false =
        apart_sym other.incident_id row.incident_id d in
      record {
        first_row = (
          new,
          first_row now row other new s.incidents refl d found,
          record {
            event_count = refl;
            detection_count = refl;
            risk_score = refl;
            severity = refl;
            affected_targets = refl;
            status = refl;
            source_ip = refl;
          },
        );
        second_row = second_row now row other new s.incidents refl apart also;
        other_rows = λ id r o. other_row now row other new s.incidents refl id r o;
        hosts = refl;
        events =
            omega (
              arith,
              joined-sum_of (λ i. i.event_count) now row other new s.incidents refl d u m n,
            );
        counts = λ ip. omega (
          arith,
          joined-sum_of (counted ip) now row other new s.incidents refl d u m n,
          count_if-sum_of (λ i. is_open_case i.status && is_some_text i.source_ip ip) after,
          count_if-sum_of (λ i. is_open_case i.status && is_some_text i.source_ip ip) s.incidents,
        );
      }

  -- With unique ids, the merge of two different incidents of the table succeeds. Afterwards the row
  -- under the first id has the events, detections and targets of both and the higher risk and
  -- severity, with its status and source as before; the row under the second id is archived and else
  -- as it was, its events included, so that the table counts them twice; every other row is as
  -- before. Of each address the second does not count as open any more; but the hosts, with their
  -- numbers of open incidents, stay as they were.
  pub merge_incidents-Joined :
      (now : ℕ) (actor : String) (row other : Incident) (s : Store)
      → str_eq row.incident_id other.incident_id ≡ false
      → UniqueIds s.incidents
      → get_incident row.incident_id s ≡ some row
      → get_incident other.incident_id s ≡ some other
      → ((merge_incidents tools dumps now row.incident_id other.incident_id actor s).0 ≡ merged)
        × Joined now row other s
            (merge_incidents tools dumps now row.incident_id other.incident_id actor s).1
  unfolding merge_incidents get_incident
  merge_incidents-Joined now actor row other s d u found also =
      rw (d, found, also)
        (
          merge_rows-ok now row.incident_id other.incident_id actor row other s,
          rows-Joined now actor row other s (apart_sym row.incident_id other.incident_id d) u found
              also,
        )
