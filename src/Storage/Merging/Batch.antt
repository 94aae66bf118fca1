-- ===== src/Storage/Merging/Batch.antt =====
-- What a whole call of insert_incidents of storage/database.py adds.
use pondsecndr.Prelude.{
  ℕ, ◌+◌, ◌≡◌, refl, subst, arith, none, any, keep, first, str_eq, inl, inr, Bool-cases, String,
  Bool, true, false, List, [], ◌∷◌, if◌then◌else◌,
}
use pondsecndr.Python.Value.{Value}
use pondsecndr.Python.Result.{ok, raise, integrity_error, ok-injective, >>=-eq-ok}
use pondsecndr.Detection.{Tools}
use pondsecndr.Storage.{Incident, Store}
use pondsecndr.Storage.Incidents.{is_open_case}
use pondsecndr.Storage.Incidents.Counts.{UniqueIds}
use pondsecndr.Storage.Related.{Incoming, prepare, is_candidate}
use pondsecndr.Storage.Merging.{
  latest_seen, find_merge_incident, keep_incident, insert_incident, insert_incidents,
}
use pondsecndr.Storage.Merging.Rows.{sum_of}
use pondsecndr.Storage.Merging.Totals.{Inserted, linked-Inserted}

abbrev pub events_of : Tools → ℕ → Incoming → ℕ
events_of tools now incident = (prepare tools now incident).event_count

abbrev pub detections_in : Tools → ℕ → Incoming → ℕ
detections_in tools now incident = (prepare tools now incident).detection_count

nothing-Inserted : (s : Store) → UniqueIds s.incidents → Inserted 0 0 0 s s
nothing-Inserted s u = record {
  unique = u;
  added_events = omega arith;
  added_detections = omega arith;
  rows = omega arith;
  addresses = λ a. a;
  counts = λ a c. c;
}

in_turn :
    {e d n f g m : ℕ} {s t v : Store}
    → Inserted e d n s t
    → Inserted f g m t v
    → Inserted (e + f) (d + g) (n + m) s v
in_turn one two = record {
  unique = two.unique;
  added_events = omega (arith, one.added_events, two.added_events);
  added_detections = omega (arith, one.added_detections, two.added_detections);
  rows = omega (arith, one.rows, two.rows);
  addresses = λ a. two.addresses (one.addresses a);
  counts = λ a c. two.counts (one.addresses a) (one.counts a c);
}

one_more : (b : Bool) (n : ℕ) → (if b then 1 else 0) + n ≡ (if b then n + 1 else n)
one_more true n = omega arith
one_more false n = omega arith

module _ (tools : Tools) (dumps : Value → String) where
  insert_incident-Inserted :
      (now : ℕ) (incident : Incoming) (s : Store) {r : Bool × Incoming × Store}
      → UniqueIds s.incidents
      → insert_incident tools dumps now incident s ≡ ok r
      → Inserted
          (events_of tools now incident)
          (detections_in tools now incident)
          (if r.0 then 1 else 0)
          s
          r.2
  unfolding insert_incident
  insert_incident-Inserted now incident s u h =
      let i = prepare tools now incident in
      let (kept, made, same) =
        >>=-eq-ok (keep_incident tools dumps i (find_merge_incident tools i s.incidents) s) _ h in
      subst
        (λ (r : Bool × Incoming × Store).
          Inserted i.event_count i.detection_count (if r.0 then 1 else 0) s r.2)
        (ok-injective same) (linked-Inserted tools dumps i s u made)

  -- With unique ids in the table, and if the call does not raise, the incidents add the events and the
  -- detections of their prepared forms to the totals of the table, whether they are merged or not, the
  -- number returned is that of the new rows, the ids stay unique, and every host keeps the right
  -- number of open incidents, if the hosts have addresses and the numbers were right before.
  pub insert_incidents-Inserted :
      (now : ℕ) (incidents : List Incoming) (s : Store) {r : ℕ × List Incoming × Store}
      → UniqueIds s.incidents
      → insert_incidents tools dumps now incidents s ≡ ok r
      → Inserted
          (sum_of (events_of tools now) incidents)
          (sum_of (detections_in tools now) incidents)
          r.0
          s
          r.2
  unfolding insert_incidents sum_of
  insert_incidents-Inserted now [] s u h =
      subst (λ (r : ℕ × List Incoming × Store). Inserted 0 0 r.0 s r.2) (ok-injective h)
        (nothing-Inserted s u)
  insert_incidents-Inserted now (incident ∷ rest) s u h =
      let (one, inserted, going_on) = >>=-eq-ok (insert_incident tools dumps now incident s) _ h in
      let here = insert_incident-Inserted now incident s u inserted in
      let (others, last, same) =
        >>=-eq-ok (insert_incidents tools dumps now rest one.2) _ going_on in
      let there = insert_incidents-Inserted now rest one.2 here.unique last in
      subst
        (λ (r : ℕ × List Incoming × Store).
          Inserted (sum_of (events_of tools now) (incident ∷ rest))
            (sum_of (detections_in tools now) (incident ∷ rest)) r.0 s r.2)
        (ok-injective same)
        (subst
          (λ n.
            Inserted (events_of tools now incident + sum_of (events_of tools now) rest)
              (detections_in tools now incident + sum_of (detections_in tools now) rest) n s
              others.2)
          (one_more one.0 others.0) (in_turn here there))

no_candidates :
    (tools : Tools) (cutoff : ℕ) (i : Incoming) (is : List Incident)
    → any (λ row. is_open_case row.status) is ≡ false
    → keep (is_candidate tools cutoff i) is ≡ []
unfolding keep any is_candidate
no_candidates tools cutoff i [] h = refl
no_candidates tools cutoff i (row ∷ is) h = ground (arith, h, no_candidates tools cutoff i is)

-- Where no incident is open, there is none to continue.
nothing_to_continue :
    (tools : Tools) (i : Incoming) (is : List Incident)
    → any (λ row. is_open_case row.status) is ≡ false
    → find_merge_incident tools i is ≡ none
unfolding find_merge_incident latest_seen first
nothing_to_continue tools i is h = elim (Bool-cases (is_open_case i.status)) [
  | inl opened ↦ rw (opened, no_candidates tools _ i is h) refl
  | inr closed_case ↦ rw closed_case refl
]

-- If every incident of the table is closed, and the first of the new ones has an id that is there, the
-- call raises, and none of them is inserted.
pub insert_incidents_raises :
    (tools : Tools) (dumps : Value → String) (now : ℕ) (incident : Incoming) (rest : List Incoming)
    (s : Store)
    → any (λ row. is_open_case row.status) s.incidents ≡ false
    → any (λ row. str_eq row.incident_id incident.incident_id) s.incidents ≡ true
    → insert_incidents tools dumps now (incident ∷ rest) s ≡ raise integrity_error
unfolding insert_incidents insert_incident keep_incident prepare
insert_incidents_raises tools dumps now incident rest s h used =
    rw (nothing_to_continue tools (prepare tools now incident) s.incidents h, used) refl
