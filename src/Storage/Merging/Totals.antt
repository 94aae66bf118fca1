-- ===== src/Storage/Merging/Totals.antt =====
-- What insert_incidents of storage/database.py keeps: the totals over its incidents, and the counts of
-- open incidents of its hosts.
use pondsecndr.Prelude.{
  ℕ, ◌+◌, ◌≡◌, refl, sym, ap, ◌∙◌, subst, inl, inr, arith, String, Bool, true, false, List, [], ◌∷◌,
  Option, none, some, any, ◌++◌, All, length, str_eq, eq_iff, is_empty, Bool-cases, if◌then◌else◌,
  ◌&&◌,
}
use pondsecndr.Python.Value.{Value}
use pondsecndr.Python.Result.{ok, raise, Error, ok-injective}
use pondsecndr.Detection.{Tools}
use pondsecndr.Storage.{Incident, Host, update_host, Store, is_some_text}
use pondsecndr.Storage.Incidents.{open_count, is_open_case}
use pondsecndr.Storage.Incidents.Counts.{
  HasCount, HasCounts, HasAddress, UniqueIds, unchanged, IsRecount, update_host-HasCount,
}
use pondsecndr.Storage.Related.{Incoming}
use pondsecndr.Storage.Merging.{
  find_merge_incident, keep_incident, linked, replace_incident, merge_row, new_row, is_new,
  set_open_risk, refresh_host_incident_count,
}
use pondsecndr.Storage.Merging.Rows.{
  sum_of, append-UniqueIds, replace_incident-UniqueIds, sum_of-append, count_if-sum_of,
  length-sum_of, find_merge_incident-IsIn, replace_incident-sum_of,
}

refresh-incidents :
    (source : Option String) (risk : ℕ) (s : Store)
    → (refresh_host_incident_count source risk s).incidents ≡ s.incidents
unfolding refresh_host_incident_count
refresh-incidents none risk s = refl
refresh-incidents (some ip) risk s = ground arith

same_branches : (b : Bool) (n : ℕ) → (if b then n else n) ≡ n
same_branches true n = refl
same_branches false n = refl

-- What one round of `insert_incidents` adds to the table, with the number of the new rows.
pub record Inserted (events detections created : ℕ) (before after : Store) : Type 0 where
  pub unique : UniqueIds after.incidents
  pub added_events :
      sum_of (λ row. row.event_count) after.incidents
      ≡ sum_of (λ row. row.event_count) before.incidents + events
  pub added_detections :
      sum_of (λ row. row.detection_count) after.incidents
      ≡ sum_of (λ row. row.detection_count) before.incidents + detections
  pub rows : length after.incidents ≡ length before.incidents + created
  pub addresses : All HasAddress before.hosts → All HasAddress after.hosts
  pub counts : All HasAddress before.hosts → HasCounts before → HasCounts after

set_open_risk-IsRecount : (risk n : ℕ) → IsRecount n (set_open_risk risk n)
unfolding set_open_risk
set_open_risk-IsRecount risk n = record { counts = λ h. refl; keeps_ip = λ h. refl }

-- `updated` is the store with the new incidents; the counts are right for the old ones.
refresh-HasCounts :
    (source : Option String) (risk : ℕ) (before : List Incident) (updated : Store)
    → ((ip : String)
        → is_some_text source ip ≡ false
        → open_count ip updated.incidents ≡ open_count ip before)
    → All HasAddress updated.hosts
    → All (HasCount before) updated.hosts
    → HasCounts (refresh_host_incident_count source risk updated)
unfolding refresh_host_incident_count
refresh-HasCounts none risk before updated k a h =
    unchanged before updated.incidents updated.hosts (λ x e. k x.ip refl) a h
refresh-HasCounts (some ip) risk before updated k a h = elim (Bool-cases (is_empty ip)) [
  | inl none_named ↦
      rw (HasCounts, none_named)
        (unchanged before updated.incidents updated.hosts
          (λ x e. k x.ip (ground (arith, e, none_named, eq_iff ip x.ip))) a h)
  | inr named ↦
      rw (HasCounts, named)
        (update_host-HasCount ip before updated.incidents _ (set_open_risk-IsRecount risk _)
          updated.hosts (λ x other. k x.ip (ground (arith, other, eq_iff ip x.ip, eq_iff x.ip ip)))
          h)
]

update_host-HasAddress :
    (ip : String) (n : ℕ) (change : Host → Host) (hs : List Host)
    → IsRecount n change
    → All HasAddress hs
    → All HasAddress (update_host ip change hs)
unfolding update_host
update_host-HasAddress ip n change [] r a = tt
update_host-HasAddress ip n change (h ∷ hs) r a = (
  elim (Bool-cases (str_eq h.ip ip)) [
    | inl same ↦ rw same (ap is_empty (r.keeps_ip h) ∙ a.0)
    | inr other ↦ rw other a.0
  ],
  update_host-HasAddress ip n change hs r a.1,
)

refresh-HasAddress :
    (source : Option String) (risk : ℕ) (s : Store)
    → All HasAddress s.hosts
    → All HasAddress (refresh_host_incident_count source risk s).hosts
unfolding refresh_host_incident_count
refresh-HasAddress none risk s a = a
refresh-HasAddress (some ip) risk s a = elim (Bool-cases (is_empty ip)) [
  | inl none_named ↦ rw none_named a
  | inr named ↦ rw named (update_host-HasAddress ip _ _ s.hosts (set_open_risk-IsRecount risk _) a)
]

unguarded :
    {A : Type 0} (test : Bool) (e : Error) (a : A) {b : A}
    → (if test then raise e else ok a) ≡ ok b
    → (test ≡ false) × (a ≡ b)
unguarded true e a h = absurd (ground (arith, h))
unguarded false e a h = (refl, ok-injective h)

module _ (tools : Tools) (dumps : Value → String) (i : Incoming) (s : Store) where
  -- What is kept is a new row with a fresh id, or the merged one.
  kept_cases :
      (Q : Store → Type 0) (existing : Option Incident) {kept : String × Store}
      → (existing ≡ none
          → any (λ row. str_eq row.incident_id i.incident_id) s.incidents ≡ false
          → Q (record s { incidents = s.incidents ++ new_row i ∷ [] }))
      → ((row : Incident)
          → existing ≡ some row
          → Q (record s { incidents = replace_incident (merge_row tools dumps row i) s.incidents }))
      → keep_incident tools dumps i existing s ≡ ok kept
      → Q kept.1
  unfolding keep_incident
  kept_cases Q none fresh continued h =
      let (unused, same) =
        unguarded (any (λ row. str_eq row.incident_id i.incident_id) s.incidents) _ _ h in
      subst (λ (r : String × Store). Q r.1) same (fresh refl unused)
  kept_cases Q (some row) fresh continued h =
      subst (λ (r : String × Store). Q r.1) (ok-injective h) (continued row refl)

  abbrev found : Option Incident
  found = find_merge_incident tools i s.incidents

  module _ {kept : String × Store} (u : UniqueIds s.incidents)
      (h : keep_incident tools dumps i (find_merge_incident tools i s.incidents) s ≡ ok kept) where
    -- What is in front of a total is in the row that is new, or in the one that is kept of both.
    kept-sum_of :
        (f : Incident → ℕ) (fresh more : ℕ)
        → f (new_row i) ≡ fresh
        → ((row : Incident) → f (merge_row tools dumps row i) ≡ f row + more)
        → sum_of f kept.1.incidents ≡ sum_of f s.incidents + (if is_new found then fresh else more)
    unfolding merge_row sum_of
    kept-sum_of f fresh more new grown =
        kept_cases
          (λ t.
            sum_of f t.incidents ≡ sum_of f s.incidents + (if is_new found then fresh else more))
          found
          (λ absent unused.
            rw absent (omega (arith, sum_of-append f s.incidents (new_row i ∷ []), new)))
          (λ row continued. rw continued (
            omega (
              arith,
              replace_incident-sum_of f row (merge_row tools dumps row i) s.incidents refl u
                  (find_merge_incident-IsIn tools i s.incidents continued),
              grown row,
            )))
          h

    kept-UniqueIds : UniqueIds kept.1.incidents
    unfolding new_row
    kept-UniqueIds =
        kept_cases (λ t. UniqueIds t.incidents) found
          (λ absent unused. append-UniqueIds s.incidents (new_row i) u unused)
          (λ row continued. replace_incident-UniqueIds (merge_row tools dumps row i) s.incidents u)
          h

    kept-hosts : s.hosts ≡ kept.1.hosts
    kept-hosts =
        kept_cases (λ t. s.hosts ≡ t.hosts) found (λ absent unused. refl) (λ row continued. refl) h

    abbrev counted_row : String → Incident → ℕ
    counted_row ip row = if is_open_case row.status && is_some_text row.source_ip ip then 1 else 0

    -- Only the address of its source sees that an incident is kept.
    kept-open_count :
        (ip : String)
        → is_some_text i.source_ip ip ≡ false
        → open_count ip kept.1.incidents ≡ open_count ip s.incidents
    unfolding open_count new_row merge_row
    kept-open_count ip other =
        let sum = kept-sum_of (counted_row ip) 0 0 (ground (arith, other)) (λ row. omega arith) in
        omega (
          arith,
          sum,
          same_branches (is_new found) 0,
          count_if-sum_of (λ row. is_open_case row.status && is_some_text row.source_ip ip)
              kept.1.incidents,
          count_if-sum_of (λ row. is_open_case row.status && is_some_text row.source_ip ip)
              s.incidents,
        )

    linked-incidents : (linked i kept).incidents ≡ kept.1.incidents
    unfolding linked
    linked-incidents = refresh-incidents _ _ _

    pub linked-Inserted :
        Inserted i.event_count i.detection_count (if is_new found then 1 else 0) s (linked i kept)
    unfolding linked new_row merge_row
    linked-Inserted = record {
      unique = subst UniqueIds (sym linked-incidents) kept-UniqueIds;
      added_events =
          ap (sum_of (λ row. row.event_count)) linked-incidents
          ∙ kept-sum_of (λ row. row.event_count) i.event_count i.event_count refl (λ row. refl)
          ∙ ap (λ n. sum_of (λ row. row.event_count) s.incidents + n) (same_branches _ _);
      added_detections =
          ap (sum_of (λ row. row.detection_count)) linked-incidents
          ∙ kept-sum_of (λ row. row.detection_count) i.detection_count i.detection_count refl
              (λ row. refl)
          ∙ ap (λ n. sum_of (λ row. row.detection_count) s.incidents + n) (same_branches _ _);
      rows =
          ap length linked-incidents
          ∙ length-sum_of kept.1.incidents
          ∙ kept-sum_of (λ row. 1) 1 0 refl (λ row. refl)
          ∙ ap (λ n. n + (if is_new found then 1 else 0)) (sym (length-sum_of s.incidents));
      addresses = λ a. refresh-HasAddress _ _ _ (subst (All HasAddress) kept-hosts a);
      counts = λ a c.
          refresh-HasCounts i.source_ip i.risk_score s.incidents _ kept-open_count
            (subst (All HasAddress) kept-hosts a) (subst (All (HasCount s.incidents)) kept-hosts c);
    }
