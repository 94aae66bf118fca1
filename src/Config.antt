-- ===== src/Config.antt =====
-- config.py: the configuration records with their defaults, and `validate`. Settings that are
-- integers are kept as natural numbers, which is what `load_config` makes of them; times are
-- microseconds. Paths, and the settings that no code modelled here reads, are left out.
pub mod Load
pub mod Learning
use pondsecndr.Prelude.{
  ℕ, String, Bool, not, ◌&&◌, List, [], ◌∷◌, ◌++◌, ltb, str_eq, is_in, if◌then◌else◌,
}
use Prim.Native.String.{◌++◌ as concat}

abbrev pub modes : List String
modes = "monitor" ∷ "alert" ∷ "interactive" ∷ "prevent" ∷ []

abbrev pub response_modes : List String
response_modes = "observe" ∷ "recommend" ∷ "enforce" ∷ []

abbrev pub directions : List String
directions = "ingress" ∷ "egress" ∷ "both" ∷ []

pub record InterfaceConfig : Type 0 where
  pub monitored : List String
  pub monitored_devices : List String
  pub direction : String
  pub internal : List String
  pub internal_devices : List String
  pub wan : List String
  pub wan_devices : List String
  pub management : List String
  pub management_devices : List String
  pub excluded_interfaces : List String
  pub excluded_devices : List String
  pub excluded_networks : List String
  pub excluded_hosts : List String

pub record DetectionConfig : Type 0 where
  pub suricata_events : Bool
  pub dns_analysis : Bool
  pub tls_analysis : Bool
  pub http_metadata : Bool
  pub portscan : Bool
  pub lateral_movement : Bool
  pub beaconing : Bool
  pub dns_tunneling : Bool
  pub exfiltration : Bool
  pub unusual_destinations : Bool
  pub unusual_services : Bool
  pub unusual_internal : Bool
  pub machine_learning : Bool
  pub learning_mode : Bool
  pub learning_started_at : String
  pub learning_days : ℕ
  pub early_ai_activation_override : Bool
  pub learning_phase_observations : ℕ
  pub minimum_observations : ℕ
  pub minimum_incident_confidence : ℕ
  pub correlation_window_minutes : ℕ
  pub false_positive_feedback_days : ℕ

pub record ThreatIntelConfig : Type 0 where
  pub cve_enrichment : Bool
  pub external_lookup : Bool
  pub cache_ttl_hours : ℕ
  pub api_timeout_seconds : ℕ

pub record ResponseConfig : Type 0 where
  pub mode : String
  pub ai_full_decision_mode : Bool
  pub kill_switch : Bool
  pub maintenance_mode : Bool
  pub automatic_blocking : Bool
  pub minimum_confidence : ℕ
  pub minimum_risk_score : ℕ
  pub minimum_severity : ℕ
  pub min_internal_event_count : ℕ
  pub min_internal_detection_count : ℕ
  pub min_internal_categories : ℕ
  pub min_supporting_indicators : ℕ
  pub min_independent_engines : ℕ
  pub baseline_stable_observations : ℕ
  pub default_block_seconds : ℕ
  pub auto_isolation_seconds : ℕ
  pub max_block_seconds : ℕ
  pub max_concurrent_blocks : ℕ
  pub internal_isolation_cooldown_seconds : ℕ
  pub max_internal_isolations_per_hour : ℕ
  pub max_auto_isolation_candidates_per_run : ℕ
  pub block_external : Bool
  pub isolate_internal : Bool
  pub manual_confirmation : Bool
  pub protect_management_networks : Bool
  pub forbid_block_on_service_error : Bool
  pub enforce_allowlist : Bool
  pub protected_networks : List String
  pub protected_hosts : List String
  pub break_glass_values : List String

pub record PondSecConfig : Type 0 where
  pub enabled : Bool
  pub mode : String
  pub risk_threshold : ℕ
  pub max_event_rate : ℕ
  pub max_queue_length : ℕ
  pub retention_days : ℕ
  pub max_database_mb : ℕ
  pub incident_rate_limit_per_minute : ℕ
  pub pf_action_rate_limit_per_minute : ℕ
  pub memory_warning_mb : ℕ
  pub cpu_warning_percent : ℕ
  pub privacy_mode : Bool
  pub anonymize_storage : Bool
  pub debug_logging : Bool
  pub fail_open : Bool
  pub timezone : String
  pub language : String
  pub suricata_eve_path : String
  pub interfaces : InterfaceConfig
  pub detection : DetectionConfig
  pub threat_intel : ThreatIntelConfig
  pub response : ResponseConfig

-- One entry of a list that the code appends to under a test.
abbrev pub when {ℓ} : {A : Type ℓ} → Bool → A → List A
when b x = if b then x ∷ [] else []

module _ (c : PondSecConfig) where
  -- The choices of words, of `fail_open` and of response modes.
  unfoldable pub choice_errors : List String
  choice_errors =
      when (not (is_in c.mode modes)) (concat "invalid mode: " c.mode)
      ++ (when (not (is_in c.response.mode response_modes))
            (concat "invalid response mode: " c.response.mode)
          ++ (when (not (is_in c.interfaces.direction directions))
                (concat "invalid direction: " c.interfaces.direction)
              ++ (when (not c.fail_open) "fail_open must remain enabled in the foundation release"
                  ++ (when
                        (str_eq c.mode "prevent"
                          && not c.response.manual_confirmation
                          && ltb c.response.minimum_confidence 75)
                        "prevent mode without manual confirmation requires at least 75 percent confidence"
                      ++ when
                          (str_eq c.response.mode "enforce" && not c.response.automatic_blocking)
                          "response enforce mode requires automatic blocking to be enabled"))))

  -- The numbers. The last two tests are of numbers below zero.
  unfoldable pub number_errors : List String
  number_errors =
      when (ltb c.retention_days 1) "retention_days must be positive"
      ++ (when (ltb c.max_database_mb 64) "max_database_mb must be at least 64"
          ++ (when (ltb c.max_queue_length 1) "max_queue_length must be positive"
              ++ (when (ltb c.incident_rate_limit_per_minute 1)
                    "incident_rate_limit_per_minute must be positive"
                  ++ (when (ltb c.pf_action_rate_limit_per_minute 1)
                        "pf_action_rate_limit_per_minute must be positive"
                      ++ (when (ltb c.detection.correlation_window_minutes 1)
                            "correlation_window_minutes must be positive"
                          ++ (when (ltb c.detection.false_positive_feedback_days 1)
                                "false_positive_feedback_days must be positive"
                              ++ (when (ltb c.threat_intel.cache_ttl_hours 1)
                                    "threat_intel cache_ttl_hours must be positive"
                                  ++ (when (ltb c.response.max_internal_isolations_per_hour 0)
                                        "max_internal_isolations_per_hour must not be negative"
                                      ++ when (ltb c.response.internal_isolation_cooldown_seconds 0)
                                          "internal_isolation_cooldown_seconds must not be negative"))))))))

  unfoldable pub validate : List String
  validate = choice_errors ++ number_errors
