-- ===== src/Storage/Incidents/Counts.antt =====
-- The counts of open incidents that storage/database.py keeps with its hosts.
use pondsecndr.Prelude.{
  ℕ, ◌≡◌, inl, inr, refl, sym, ap, ◌∙◌, subst, arith, String, Bool, false, List, [], ◌∷◌, Option,
  none, some, any, All, count_if, first, str_eq, eq_iff, is_empty, Bool-cases, Option-cases,
}
use pondsecndr.Storage.{
  Incident, IncidentStatus, open_case, closed, false_positive, archived, Host, Store, update_host,
  is_some_text, audit,
}
use pondsecndr.Storage.Incidents.{
  open_count, set_open_incidents, refresh_open_incidents, set_incident_status, after_status,
  record_feedback, source_of, get_incident, update_incident_status,
}

-- Every host that has an address has the number of its open incidents.
abbrev pub HasCount : List Incident → Host → Type 0
HasCount incidents h = h.open_incidents ≡ open_count h.ip incidents

abbrev pub HasCounts : Store → Type 0
HasCounts s = All (HasCount s.incidents) s.hosts

unfoldable pub UniqueIds : List Incident → Type 0
UniqueIds [] = Unit
UniqueIds (i ∷ is) = (any (λ j. str_eq j.incident_id i.incident_id) is ≡ false) × UniqueIds is

-- A change of the hosts of an address to the number of its open incidents.
pub record IsRecount (n : ℕ) (change : Host → Host) : Type 0 where
  pub counts : (h : Host) → (change h).open_incidents ≡ n
  pub keeps_ip : (h : Host) → (change h).ip ≡ h.ip

-- A host of another address does not see the change.
pub update_host-HasCount :
    (ip : String) (before after : List Incident) (change : Host → Host)
    → IsRecount (open_count ip after) change
    → (hs : List Host)
    → ((h : Host) → str_eq h.ip ip ≡ false → open_count h.ip after ≡ open_count h.ip before)
    → All (HasCount before) hs
    → All (HasCount after) (update_host ip change hs)
unfolding update_host
update_host-HasCount ip before after change r [] k h = tt
update_host-HasCount ip before after change r (x ∷ hs) k h = (
  elim (Bool-cases (str_eq x.ip ip)) [
    | inl same ↦
        rw same
          (r.counts x ∙ ap (λ i. open_count i after) (sym (r.keeps_ip x ∙ (eq_iff x.ip ip).0 same)))
    | inr other ↦ rw other (h.0 ∙ sym (k x other))
  ],
  update_host-HasCount ip before after change r hs k h.1,
)

set_open_incidents-IsRecount : (n : ℕ) → IsRecount n (set_open_incidents n)
unfolding set_open_incidents
set_open_incidents-IsRecount n = record { counts = λ h. refl; keeps_ip = λ h. refl }

has_id : String → Incident → Bool
has_id incident_id i = str_eq i.incident_id incident_id

count-absent :
    (now : ℕ) (incident_id : String) (status : IncidentStatus) (ip : String) (is : List Incident)
    → any (has_id incident_id) is ≡ false
    → open_count ip (set_incident_status now incident_id status is) ≡ open_count ip is
unfolding open_count count_if set_incident_status any has_id
count-absent now incident_id status ip [] h = refl
count-absent now incident_id status ip (i ∷ is) h =
    ground (arith, h, count-absent now incident_id status ip is)

-- A change of status shows only in the count of the incident's source.
count-other :
    (now : ℕ) (incident_id : String) (status : IncidentStatus) (ip : String) (is : List Incident)
    (row : Incident)
    → UniqueIds is
    → first (has_id incident_id) is ≡ some row
    → is_some_text row.source_ip ip ≡ false
    → open_count ip (set_incident_status now incident_id status is) ≡ open_count ip is
unfolding open_count count_if set_incident_status first UniqueIds has_id
count-other now incident_id status ip [] row u f h = refl
count-other now incident_id status ip (i ∷ is) row u f h =
    elim (Bool-cases (str_eq i.incident_id incident_id)) [
      | inl hit ↦
          let rest = count-absent now incident_id status ip is (
            subst (λ x. any (has_id x) is ≡ false) ((eq_iff i.incident_id incident_id).0 hit)
              u.0) in
          ground (arith, hit, f, h, rest)
      | inr miss ↦ ground (
        arith,
        miss,
        f,
        count-other now incident_id status ip is row u.1 (ground (arith, miss, f)) h,
      )
    ]

-- The hosts are found by their addresses.
abbrev pub HasAddress : Host → Type 0
HasAddress h = is_empty h.ip ≡ false

-- The hosts and incidents of the store.
tables_of : Store → List Host × List Incident
tables_of s = (s.hosts, s.incidents)

record_feedback-tables :
    (now : ℕ) (incident_id ip : String) (status : IncidentStatus) (actor : String) (s : Store)
    → tables_of (record_feedback now incident_id ip status actor s) ≡ tables_of s
unfolding record_feedback tables_of
record_feedback-tables now incident_id ip open_case actor s = refl
record_feedback-tables now incident_id ip closed actor s = refl
record_feedback-tables now incident_id ip false_positive actor s = refl
record_feedback-tables now incident_id ip archived actor s = refl

HasCounts-tables : (s t : Store) → tables_of s ≡ tables_of t → HasCounts t → HasCounts s
unfolding tables_of
HasCounts-tables s t e h =
    subst (λ x. All (HasCount x.1) x.0) {x = (t.hosts, t.incidents)} {y = (s.hosts, s.incidents)}
      (sym e) h

pub unchanged :
    (before after : List Incident) (hs : List Host)
    → ((h : Host) → HasAddress h → open_count h.ip after ≡ open_count h.ip before)
    → All HasAddress hs
    → All (HasCount before) hs
    → All (HasCount after) hs
unchanged before after [] k a h = tt
unchanged before after (x ∷ hs) k a h = (h.0 ∙ sym (k x a.0), unchanged before after hs k a.1 h.1)

-- `updated` is the store with the new incidents; the counts are right for the old ones.
after_status-HasCounts :
    (now : ℕ) (incident_id : String) (source : Option String) (status : IncidentStatus)
    (actor : String) (before : List Incident) (updated : Store)
    → ((ip : String)
        → is_some_text source ip ≡ false
        → open_count ip updated.incidents ≡ open_count ip before)
    → All HasAddress updated.hosts
    → All (HasCount before) updated.hosts
    → HasCounts (after_status now incident_id source status actor updated)
unfolding after_status refresh_open_incidents
after_status-HasCounts now incident_id none status actor before updated k a h =
    unchanged before updated.incidents updated.hosts (λ x e. k x.ip refl) a h
after_status-HasCounts now incident_id (some ip) status actor before updated k a h =
    elim (Bool-cases (is_empty ip)) [
      | inl none_named ↦
          rw (HasCounts, after_status, none_named)
            (unchanged before updated.incidents updated.hosts
              (λ x e. k x.ip (ground (arith, e, none_named, eq_iff ip x.ip))) a h)
      | inr named ↦
          rw (HasCounts, after_status, named)
            (HasCounts-tables _ _ (record_feedback-tables now incident_id ip status actor _) (
              update_host-HasCount ip before updated.incidents _ (set_open_incidents-IsRecount _)
                updated.hosts
                (λ x other. k x.ip (ground (arith, other, eq_iff ip x.ip, eq_iff x.ip ip))) h))
    ]

first-none :
    (incident_id : String) (is : List Incident)
    → first (has_id incident_id) is ≡ none
    → any (has_id incident_id) is ≡ false
unfolding first any
first-none incident_id [] h = refl
first-none incident_id (i ∷ is) h = ground (arith, h, first-none incident_id is)

-- With unique ids, a change of an incident's status leaves every host with the right number of open
-- incidents, if the numbers were right before.
pub update_incident_status-HasCounts :
    (now : ℕ) (incident_id : String) (status : IncidentStatus) (actor : String) (s : Store)
    → UniqueIds s.incidents
    → All HasAddress s.hosts
    → HasCounts s
    → HasCounts (update_incident_status now incident_id status actor s).1
unfolding update_incident_status source_of audit get_incident has_id
update_incident_status-HasCounts now incident_id status actor s u a h =
    elim (Option-cases (get_incident incident_id s)) [
      | inl absent ↦
          rw (HasCounts, update_incident_status, absent)
            (after_status-HasCounts now incident_id none status actor s.incidents
              (record s { incidents = set_incident_status now incident_id status s.incidents })
              (λ ip other.
                count-absent now incident_id status ip s.incidents
                  (first-none incident_id s.incidents absent))
              a h)
      | inr (row, found) ↦
          rw (HasCounts, update_incident_status, found)
            (after_status-HasCounts now incident_id row.source_ip status actor s.incidents _
              (λ ip other. count-other now incident_id status ip s.incidents row u found other) a h)
    ]
