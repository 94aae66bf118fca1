-- ===== src/Storage/Related.antt =====
-- Which incidents of storage/database.py belong together: the preparation of a new incident
-- (_prepare_incident_record) and the search for one that it continues (_find_merge_incident).
use Prim.Native.String.{◌++◌ as concat}
use pondsecndr.Prelude.{
  ℕ, max, String, Bool, false, not, ◌&&◌, ◌||◌, List, [], ◌∷◌, ◌++◌, Option, none, some, map, keep,
  any, length, leb, ltb, str_eq, is_empty, is_in, starts_with, sorted_set, if◌then◌else◌,
}
use pondsecndr.Python.Float.{Float}
use pondsecndr.Python.Ipaddress.{v4, v6, Address, Network}
use pondsecndr.Python.Value.{
  Value, obj, Fields, end, field, get, as_dict, as_list, dicts, truthy, text,
}
use pondsecndr.Detection.{Tools}
use pondsecndr.Storage.{Incident, IncidentStatus, given}
use pondsecndr.Storage.Incidents.{is_open_case}

-- What `correlate_detections` hands over, with `none` and 0 for a missing key.
pub record Incoming : Type 0 where
  pub incident_id : String
  pub title : String
  pub status : IncidentStatus
  pub risk_score : ℕ
  pub severity : ℕ
  pub confidence : Float
  pub source_ip : Option String
  pub destination_ip : Option String
  pub category : Option String
  pub created_at : ℕ
  pub updated_at : ℕ
  pub first_seen : Option ℕ
  pub last_seen : Option ℕ
  pub event_count : ℕ
  pub detection_count : ℕ
  pub affected_targets : List String
  pub attack_stage : Option String
  pub validation_tag : Option String
  pub suppressed_count : ℕ
  pub evidence : Fields
  pub risk_factors : List Value
  pub detection_ids : List String

-- `x or y`
abbrev pub or_moment : Option ℕ → ℕ → ℕ
or_moment none t = t
or_moment (some t) u = t

abbrev pub or_count : ℕ → ℕ → ℕ
or_count n m = if ltb 0 n then n else m

abbrev pub or_given : Option String → Option String → Option String
or_given a b = if given a then a else b

abbrev pub given_list : Option String → List String
given_list none = []
given_list (some s) = if is_empty s then [] else s ∷ []

-- `list(dict.fromkeys(xs))`
unfoldable pub distinct_texts : List String → List String → List String
distinct_texts seen [] = []
distinct_texts seen (x ∷ xs) =
    let rest = distinct_texts (x ∷ seen) xs in
    let skipped = distinct_texts seen xs in if is_in x seen then skipped else x ∷ rest

abbrev pub dedupe_window_seconds : ℕ
dedupe_window_seconds = 1800

unfoldable pub attack_stage_of : Option String → String
attack_stage_of none = "unknown"
attack_stage_of (some category) =
    if is_in category (
      "reconnaissance" ∷ "command_and_control" ∷ "lateral_movement" ∷ "exfiltration" ∷ "signature"
      ∷ "multi_stage" ∷ [])
    then category
    else if str_eq category "machine_learning"
    then "classification"
    else if str_eq category "anomaly"
    then "host_observation"
    else "unknown"

module _ (tools : Tools) where
  abbrev pub is_given : Value → Bool
  is_given = truthy tools.floats tools.texts

  abbrev pub shown : Value → String
  shown = text tools.floats tools.texts

  unfoldable pub network_text : Option Network → String → String
  network_text none value = value
  network_text (some n) value = tools.ipaddress.show_network n

  -- `str(ip_network(f"{address}/{prefix}", strict=False))`
  unfoldable pub address_key : Option Address → String → String
  unfolding network_text
  address_key none value = value
  address_key (some a) value =
      let prefix : String = elim a.version [ v4 ↦ "/24" | v6 ↦ "/64" ] in
      network_text (tools.ipaddress.ip_network (concat (tools.ipaddress.show_address a) prefix))
        value

  -- `_target_network_key`
  unfoldable pub target_network_key : (value category : Option String) → String
  unfolding address_key
  target_network_key none category = elim category [
    | none ↦ "any"
    | some c ↦ if str_eq c "anomaly" then "host-baseline" else "any"
  ]
  target_network_key (some value) category =
      if is_empty value
      then elim category [
        | none ↦ "any"
        | some c ↦ if str_eq c "anomaly" then "host-baseline" else "any"
      ]
      else if str_eq value "internal" || str_eq value "external" || starts_with value "port:"
      then value
      else address_key (tools.ipaddress.ip_address value) value

  -- `_validation_tag_from_evidence`
  unfoldable pub validation_tag_of : Value → Option String
  validation_tag_of (obj validation) =
      if is_given (get validation "scenario")
      then some (shown (get validation "scenario"))
      else if is_given (get validation "kind")
      then some (shown (get validation "kind"))
      else some "validation"
  validation_tag_of value = if is_given value then some "validation" else none

  -- `[str(d[key]) for d in ... if d.get(key)]`
  unfoldable pub named : String → List Fields → List String
  named key [] = []
  named key (d ∷ ds) =
      if is_given (get d key) then shown (get d key) ∷ named key ds else named key ds

  unfoldable pub detections_of : Fields → List Fields
  detections_of evidence = dicts (as_list (get evidence "detections"))

  unfoldable pub role_targets : Fields → List String
  role_targets roles =
      map (λ key. shown (get roles key))
        (keep (λ key. is_given (get roles key))
          ("victim" ∷ "affected_host" ∷ "pivot_host" ∷ "destination" ∷ []))

  -- `_incident_targets`
  unfoldable pub incident_targets : Incoming → List String
  unfolding role_targets detections_of named
  incident_targets i = sorted_set (
      keep (λ t. not (is_empty t)) i.affected_targets
      ++ (given_list i.destination_ip
          ++ (role_targets (as_dict (get i.evidence "entity_roles"))
              ++ named "destination_ip" (detections_of i.evidence))))

  -- `_prepare_incident_record`; what is taken over unchanged stays in the record.
  unfoldable pub prepare : (now : ℕ) → Incoming → Incoming
  unfolding distinct_texts named detections_of incident_targets validation_tag_of attack_stage_of
  prepare now i =
      let ids = distinct_texts [] (
        keep (λ s. not (is_empty s)) i.detection_ids
        ++ named "detection_id" (detections_of i.evidence)) in
      let first = or_moment i.first_seen i.created_at in
      record i {
        first_seen = some first;
        last_seen = some (or_moment i.last_seen i.updated_at);
        event_count = or_count i.event_count (max 1 (length ids));
        detection_count = or_count i.detection_count (length ids);
        affected_targets = incident_targets i;
        attack_stage = or_given i.attack_stage (some (attack_stage_of i.category));
        validation_tag =
            or_given i.validation_tag (validation_tag_of (get i.evidence "validation"));
        detection_ids = ids;
      }

  unfoldable pub role_values : Fields → List String
  role_values end = []
  role_values (field k v rest) = if is_given v then shown v ∷ role_values rest else role_values rest

  -- `_role_entities` and `_role_entities_dict`
  unfoldable pub role_entities :
      (source_ip destination_ip : Option String) (targets : List String) (evidence : Value)
      → List String
  unfolding role_values
  role_entities source_ip destination_ip targets evidence =
      given_list source_ip
      ++ (given_list destination_ip
          ++ (keep (λ t. not (is_empty t)) targets
              ++ role_values (as_dict (get (as_dict evidence) "entity_roles"))))

  abbrev pub any_key : List String → String → Option String → Bool
  any_key targets key category =
      any (λ t. str_eq (target_network_key (some t) category) key) targets

  -- `_incident_target_matches`
  unfoldable pub incident_target_matches : Incident → Incoming → Bool
  unfolding target_network_key
  incident_target_matches row i =
      let candidate = target_network_key row.destination_ip row.category in
      let incoming = target_network_key i.destination_ip i.category in
      str_eq candidate "any"
      || str_eq incoming "any"
      || str_eq candidate incoming
      || any_key row.affected_targets incoming row.category
      || any_key i.affected_targets candidate i.category

  unfoldable pub same_source : Option String → Option String → Bool
  same_source (some a) (some b) = not (is_empty a) && str_eq a b
  same_source _ _ = false

  -- `_incident_related`; the source of each side is among its own entities, so both tests of a source
  -- are part of the test for a shared entity.
  unfoldable pub incident_related : Incident → Incoming → Bool
  unfolding incident_target_matches role_entities same_source
  incident_related row i =
      let existing =
        role_entities row.source_ip row.destination_ip row.affected_targets row.evidence in
      let incoming =
        role_entities i.source_ip i.destination_ip i.affected_targets (obj i.evidence) in
      if same_source row.source_ip i.source_ip
      then incident_target_matches row i
      else any (λ e. is_in e existing) incoming

  abbrev pub tag_text : Option String → String
  tag_text none = ""
  tag_text (some s) = s

  unfoldable pub is_candidate : (cutoff : ℕ) → Incoming → Incident → Bool
  is_candidate cutoff i row =
      is_open_case row.status
      && str_eq (tag_text row.validation_tag) (tag_text i.validation_tag)
      && leb cutoff (or_moment row.last_seen row.updated_at)
