-- ===== src/Response/Evidence.antt =====
-- The evidence summary of response/policy.py: which categories, engines, sources and indicators the
-- detections of an incident bring.
use pondsecndr.Prelude.{
  ℕ, String, Bool, false, not, ◌&&◌, ◌||◌, List, [], ◌∷◌, ◌++◌, map, keep, all, length, str_eq,
  is_empty, is_in, starts_with, contains, lower, sorted_set, if◌then◌else◌,
}
use mathlib.Core.List.{flat_map}
use pondsecndr.Python.Float.{Floats}
use pondsecndr.Python.Value.{
  Value, str, arr, Fields, Texts, get, has, as_dict, as_list, dicts, elements, truthy, text,
  text_or,
}
use pondsecndr.Config.{PondSecConfig}
use pondsecndr.Storage.{Incident}

abbrev pub strong_internal_categories : List String
strong_internal_categories =
    "command_and_control" ∷ "lateral_movement" ∷ "exfiltration" ∷ "credential_abuse" ∷ "malware"
    ∷ []

abbrev pub noisy_single_signal_categories : List String
noisy_single_signal_categories = "reconnaissance" ∷ "signature" ∷ "reputation" ∷ []

pub record EvidenceSummary : Type 0 where
  pub categories : List String
  pub detector_ids : List String
  pub independent_engines : List String
  pub data_sources : List String
  pub supporting_indicators : List String
  pub ml_only : Bool
  pub all_prevented_or_blocked : Bool
  pub detections_considered : ℕ

-- `[item for item in evidence["detections"] if isinstance(item, dict)]`
unfoldable pub detections_of : Value → List Fields
detections_of evidence = dicts (as_list (get (as_dict evidence) "detections"))

-- `indicators.add(name)` under a test.
abbrev when : Bool → String → List String
when b name = if b then name ∷ [] else []

module _ (floats : Floats) (texts : Texts) where
  abbrev pub detector_id : Fields → String
  detector_id d = text_or floats texts (get d "detector_id") ""

  abbrev pub category : Fields → String
  category d = text_or floats texts (get d "category") ""

  abbrev evidence : Fields → Fields
  evidence d = as_dict (get d "evidence")

  unfoldable pub engine_for_detection : Fields → String
  engine_for_detection d =
      if starts_with (detector_id d) "pondsec.suricata"
        || truthy floats texts (get (evidence d) "signature_id")
      then "suricata"
      else if str_eq (detector_id d) "pondsec.pretrained_ids_model"
          || str_eq (category d) "machine_learning"
      then "machine_learning"
      else if str_eq (detector_id d) "pondsec.dns_tunneling"
      then "dns"
      else if str_eq (detector_id d) "pondsec.unusual_tls_fingerprint"
      then "tls"
      else if contains (detector_id d) "intel" || str_eq (category d) "threat_intelligence"
      then "threat_intel"
      else "behavior"

  unfoldable pub named_source : Value → List String
  named_source (str s) = when (not (is_empty s)) s
  named_source _ = []

  unfoldable pub listed_sources : Value → List String
  listed_sources (arr items) = map (text floats texts) (keep (truthy floats texts) (elements items))
  listed_sources _ = []

  unfoldable pub sources_for_detection : Fields → List String
  unfolding named_source listed_sources
  sources_for_detection d =
      let values =
        flat_map (λ key. named_source (get (evidence d) key))
          ("provider_id" ∷ "event_source" ∷ "raw_source" ∷ "source" ∷ [])
        ++ flat_map (λ key. listed_sources (get (evidence d) key))
            ("providers" ∷ "event_sources" ∷ "raw_sources" ∷ []) in
      elim values [ [] ↦ "suricata_eve" ∷ [] | s ∷ rest ↦ s ∷ rest ]

  unfoldable pub supporting_indicators : PondSecConfig → Fields → List String
  supporting_indicators config d =
      when (str_eq (detector_id d) "pondsec.beaconing" || has (evidence d) "periodicity")
        "beaconing"
      ++ (when (str_eq (detector_id d) "pondsec.dns_tunneling") "dns_anomaly"
          ++ (when (str_eq (detector_id d) "pondsec.host_baseline_anomaly") "baseline_deviation"
              ++ (when
                    (str_eq (detector_id d) "pondsec.lateral_movement"
                      || str_eq (category d) "lateral_movement")
                    "unusual_internal_access"
                  ++ (when
                        (str_eq (detector_id d) "pondsec.data_exfiltration"
                          || str_eq (category d) "exfiltration")
                        "data_transfer"
                      ++ (when (str_eq (detector_id d) "pondsec.unusual_tls_fingerprint")
                            "tls_fingerprint"
                          ++ (when
                                (contains (detector_id d) "intel"
                                  || str_eq (category d) "threat_intelligence")
                                "threat_intel"
                              ++ when
                                  (config.response.ai_full_decision_mode
                                    && (str_eq (detector_id d) "pondsec.pretrained_ids_model"
                                        || str_eq (category d) "machine_learning"))
                                  "ml_assessment"))))))

  unfoldable pub is_prevented_or_blocked : Fields → Bool
  is_prevented_or_blocked d =
      let action =
        if truthy floats texts (get (evidence d) "suricata_action")
        then text floats texts (get (evidence d) "suricata_action")
        else text_or floats texts (get (evidence d) "action") "" in
      str_eq (detector_id d) "pondsec.suricata_drop"
      || is_in (lower action) ("blocked" ∷ "block" ∷ "drop" ∷ "dropped" ∷ "reject" ∷ [])

  -- Here `str(item.get(...))` has no default, so a missing value is the text "None".
  unfoldable pub is_ml : Fields → Bool
  is_ml d =
      str_eq (text floats texts (get d "detector_id")) "pondsec.pretrained_ids_model"
      || str_eq (text floats texts (get d "category")) "machine_learning"

  unfoldable pub some_and_all : (Fields → Bool) → List Fields → Bool
  some_and_all p [] = false
  some_and_all p (d ∷ ds) = all p (d ∷ ds)

  unfoldable pub evidence_summary : Incident → PondSecConfig → EvidenceSummary
  unfolding detections_of engine_for_detection sources_for_detection supporting_indicators
      is_prevented_or_blocked is_ml some_and_all
  evidence_summary incident config =
      let detections = detections_of incident.evidence in
      record {
        categories =
            sorted_set (map (λ d. text_or floats texts (get d "category") "unknown") detections);
        detector_ids =
            sorted_set (map (λ d. text_or floats texts (get d "detector_id") "unknown") detections);
        independent_engines = sorted_set (map engine_for_detection detections);
        data_sources = sorted_set (flat_map sources_for_detection detections);
        supporting_indicators = sorted_set (flat_map (supporting_indicators config) detections);
        ml_only = some_and_all is_ml detections;
        all_prevented_or_blocked = some_and_all is_prevented_or_blocked detections;
        detections_considered = length detections;
      }
