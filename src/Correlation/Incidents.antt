-- ===== src/Correlation/Incidents.antt =====
-- The second half of correlation.py: the incident that a case becomes. Its title, the texts of the
-- clock, and the notes that only repeat other fields are left out; `uuid5` is given.
pub mod Built
use pondsecndr.Prelude.{
  ℕ, suc, ◌+◌, max, String, true, not, ◌||◌, List, [], ◌∷◌, ◌++◌, Option, none, some, map, keep,
  length, is_in, is_empty, str_eq, lt_text, sort_by, sorted_set, join_with, if◌then◌else◌,
}
use pondsecndr.Prelude.Int.{ℤ, pos, ltb_ℤ}
use pondsecndr.Python.Float.{Float}
use pondsecndr.Python.Value.{Value, bool, int, obj, Fields, get}
use pondsecndr.Detection.{Detection}
use pondsecndr.Correlation.Risk.{Factor, max_float, score_detection_group, severity_from_risk}
use pondsecndr.Correlation.Cases.{Case, build_cases}
use pondsecndr.Correlation.Roles.{EntityRoles, or_else, present, most_common, entity_roles}
use pondsecndr.Response.Policy.{Platform}

pub record Step : Type 0 where
  pub timestamp : String
  pub detection_id : String
  pub detector_id : String
  pub category : String
  pub stage : String
  pub source_ip : Option String
  pub destination_ip : Option String

pub record NewIncident : Type 0 where
  pub incident_id : String
  pub risk_score : ℤ
  pub severity : ℕ
  pub confidence : Float
  pub source_ip : Option String
  pub destination_ip : Option String
  pub category : String
  pub first_seen : String
  pub last_seen : String
  pub event_count : ℕ
  pub detection_count : ℕ
  pub affected_targets : List String
  pub attack_stage : String
  pub detections : List Detection
  pub entity_roles : EntityRoles
  pub attack_sequence : List Step
  pub risk_factors : List Factor
  pub detection_ids : List String

-- `_stage_for_category`
unfoldable pub stage_for_category : String → String
stage_for_category category =
    if str_eq category "reconnaissance" || str_eq category "signature"
    then "reconnaissance"
    else if is_in category ("lateral_movement" ∷ "command_and_control" ∷ "exfiltration" ∷ [])
    then category
    else "execution"

unfoldable pub positive : Value → Option ℕ
positive (bool true) = some 1
positive (int (pos (suc n))) = some (suc n)
positive _ = none

unfoldable pub first_count : Fields → List String → ℕ
unfolding positive
first_count evidence [] = 1
first_count evidence (key ∷ keys) = elim (positive (get evidence key)) [
  | none ↦ first_count evidence keys
  | some n ↦ n
]

-- `_evidence_event_count`
unfoldable pub evidence_event_count : Value → ℕ
unfolding first_count
evidence_event_count (obj evidence) = first_count evidence (
    "event_count" ∷ "connections" ∷ "destination_count" ∷ "unique_destinations" ∷ "unique_ports"
    ∷ "failed_connections" ∷ [])
evidence_event_count _ = 1

-- `_common_destination`: the only destination there is.
unfoldable pub only_one : List String → Option String
only_one (s ∷ []) = some s
only_one _ = none

unfoldable pub common_destination : List Detection → Option String
unfolding only_one present
common_destination ds = only_one (sorted_set (present (map (λ d. d.destination_ip) ds)))

-- `_affected_targets`
unfoldable pub append_new : List String → List String → List String
append_new targets [] = targets
append_new targets (s ∷ rest) =
    append_new (if is_in s targets then targets else targets ++ s ∷ []) rest

unfoldable pub affected_targets : List Detection → EntityRoles → List String
unfolding append_new present
affected_targets ds roles = append_new [] (
    present (
      roles.victim
      ∷ roles.affected_host
      ∷ roles.destination
      ∷ roles.pivot_host
      ∷ map (λ d. d.destination_ip) ds))

-- `_attack_sequence`
unfoldable pub attack_sequence : List Detection → List Step
unfolding stage_for_category
attack_sequence ds =
    map
      (λ d. record {
        timestamp = d.timestamp;
        detection_id = d.detection_id;
        detector_id = d.detector_id;
        category = d.category;
        stage = stage_for_category d.category;
        source_ip = d.source_ip;
        destination_ip = d.destination_ip;
      })
      (sort_by (λ d. d.timestamp) ds)

-- `min` and `max` of texts, over a list that is not empty.
unfoldable pub min_text : String → List String → String
min_text s [] = s
min_text s (t ∷ ts) = min_text (if lt_text t s then t else s) ts

unfoldable pub max_text : String → List String → String
max_text s [] = s
max_text s (t ∷ ts) = max_text (if lt_text s t then t else s) ts

unfoldable pub sum : List ℕ → ℕ
sum [] = 0
sum (n ∷ ns) = n + sum ns

abbrev pub or_text : String → String → String
or_text s default = if is_empty s then default else s

unfoldable pub head_or : String → List String → String
head_or default [] = default
head_or default (s ∷ rest) = s

-- The word for one kind, or for several.
unfoldable pub one_or_many : List String → String
one_or_many (s ∷ []) = s
one_or_many _ = "multi_stage"

abbrev or_default : Option String → String → String
or_default none default = default
or_default (some s) default = s

-- What Python's uuid5 makes of a text is given, and `clock` is the text of the moment.
module _ (p : Platform) (uuid5 : String → String) (clock : String) where
  unfoldable pub basis : Option String → Option String → (category : String) → List String → String
  basis source target category detection_ids = join_with "|" (
      or_default source "unknown-source"
      ∷ or_default target "unknown-target"
      ∷ category
      ∷ join_with "," (sort_by (λ s. s) detection_ids)
      ∷ [])

  unfoldable pub seen : Detection → String
  seen d = or_text d.timestamp clock

  unfoldable pub build_incident :
      (score : ℤ) (factors : List Factor) → Detection → List Detection → NewIncident
  unfolding basis seen max_float min_text max_text sum head_or one_or_many evidence_event_count
      common_destination affected_targets attack_sequence stage_for_category
  build_incident score factors d ds =
      let items = d ∷ ds in
      let roles = entity_roles p items in
      let categories = sorted_set (map (λ i. or_text i.category "unknown") items) in
      let category = one_or_many categories in
      let stages = sorted_set (map (λ i. stage_for_category i.category) items) in
      let source_ip = or_else roles.threat_source (most_common (map (λ i. i.source_ip) items)) in
      let destination_ip =
        or_else roles.victim (or_else roles.destination (common_destination items)) in
      let detection_ids = keep (λ s. not (is_empty s)) (map (λ i. i.detection_id) items) in
      record {
        incident_id =
            uuid5 (basis source_ip (or_else roles.victim destination_ip) category detection_ids);
        risk_score = score;
        severity = severity_from_risk score;
        confidence =
            p.floats.round (max_float p.floats d.confidence (map (λ i. i.confidence) ds)) 4;
        source_ip = source_ip;
        destination_ip = destination_ip;
        category = category;
        first_seen = min_text (seen d) (map seen ds);
        last_seen = max_text (seen d) (map seen ds);
        event_count = max 1 (sum (map (λ i. evidence_event_count i.evidence) items));
        detection_count = length items;
        affected_targets = affected_targets items roles;
        attack_stage = one_or_many stages;
        detections = items;
        entity_roles = roles;
        attack_sequence = attack_sequence items;
        risk_factors = factors;
        detection_ids = detection_ids;
      }

  -- A case whose risk is below 35 becomes no incident.
  unfoldable pub report : (score : ℤ × List Factor) → List Detection → List NewIncident
  unfolding build_incident
  report (score, factors) [] = []
  report (score, factors) (d ∷ ds) =
      if ltb_ℤ score (pos 35) then [] else build_incident score factors d ds ∷ []

  unfoldable pub report_cases : List Case → List NewIncident
  unfolding report
  report_cases [] = []
  report_cases (c ∷ cs) =
      report (score_detection_group p.floats c.detections) c.detections ++ report_cases cs

  -- `correlate_detections`; `now` is the moment of `clock`.
  unfoldable pub correlate_detections :
      (now : ℕ) (detections : List Detection) (window_seconds : ℕ) → List NewIncident
  unfolding report_cases
  correlate_detections now detections window_seconds =
      report_cases (build_cases p now window_seconds detections)
