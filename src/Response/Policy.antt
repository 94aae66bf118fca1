-- ===== src/Response/Policy.antt =====
-- response/policy.py: whether an automatic response may be proposed or enforced.
pub mod Eligibility
pub mod Layers
use Prim.Native.String.{◌++◌ as concat}
use pondsecndr.Prelude.{
  ℕ, zero, suc, String, Bool, true, false, not, ◌&&◌, List, [], ◌∷◌, ◌++◌, Option, none, some,
  length, ltb, leb, ◌==◌, str_eq, meets, is_subset, if◌then◌else◌,
}
use pondsecndr.Prelude.Int.{pos}
use pondsecndr.Python.Float.{Float, Floats, or_zero}
use pondsecndr.Python.Value.{Texts}
use pondsecndr.Python.Ipaddress.{Ipaddress, is_private_ip}
use pondsecndr.Config.{PondSecConfig, when}
use pondsecndr.Config.Learning.{LearningStatus, learning_status, Phase, armed}
use pondsecndr.Storage.{Incident, Store, host_baseline_observations}
use pondsecndr.Storage.Blocks.{recent_automatic_internal_block_count}
use pondsecndr.Response.Evidence.{
  EvidenceSummary, evidence_summary, strong_internal_categories, noisy_single_signal_categories,
}

pub data PolicyStatus : Type 0 where
  observe recommend denied enforce : PolicyStatus

abbrev pub may_propose : PolicyStatus → Bool
may_propose recommend = true
may_propose enforce = true
may_propose _ = false

abbrev pub may_activate : PolicyStatus → Bool
may_activate enforce = true
may_activate _ = false

pub record DecisionLayers : Type 0 where
  pub observed : Bool
  pub likely_compromised : Bool
  pub containment_eligible : Bool
  pub execution_allowed : Bool

pub record Decision : Type 0 where
  pub status : PolicyStatus
  pub target_ip : String
  pub target_internal : Bool
  pub proposal_allowed : Bool
  pub activation_allowed : Bool
  pub blocking_reasons : List String
  pub activation_reasons : List String
  pub learning_status : LearningStatus
  pub evidence : EvidenceSummary
  pub decision_layers : DecisionLayers

-- What the program is given: Python's floats and texts, `ipaddress`, and the reading of ISO texts.
pub record Platform : Type 0 where
  pub floats : Floats
  pub texts : Texts
  pub ipaddress : Ipaddress
  pub parse_datetime : String → Option ℕ

unfoldable pub is_armed : Phase → Bool
is_armed armed = true
is_armed _ = false

unfoldable pub is_started : Option ℕ → Bool
is_started none = false
is_started (some t) = true

unfoldable pub learning_complete_for_response : LearningStatus → Bool
unfolding is_armed is_started
learning_complete_for_response status =
    is_armed status.status && is_started status.started_at && status.remaining_days == 0

module _ (p : Platform) (config : PondSecConfig) (incident : Incident) where
  -- `float(incident.get("confidence") or 0.0) * 100`
  unfoldable pub confidence_percent : Float
  confidence_percent =
      p.floats.mul (or_zero p.floats incident.confidence) (p.floats.of_int (pos 100))

  unfoldable pub below_confidence : Bool
  unfolding confidence_percent
  below_confidence =
      p.floats.lt confidence_percent (p.floats.of_int (pos config.response.minimum_confidence))

  -- The first half of `_internal_isolation_reasons`: the amount of evidence.
  unfoldable pub amount_reasons : EvidenceSummary → List String
  amount_reasons summary =
      when (not config.response.isolate_internal) "automatic internal isolation is disabled"
      ++ (when (ltb incident.event_count config.response.min_internal_event_count)
            "not enough correlated events for internal isolation"
          ++ (when (ltb incident.detection_count config.response.min_internal_detection_count)
                "not enough correlated detections for internal isolation"
              ++ (when (ltb (length summary.categories) config.response.min_internal_categories)
                    "not enough independent detection categories for internal isolation"
                  ++ (when (not (meets summary.categories strong_internal_categories))
                        "no strong internal compromise category is present"
                      ++ (when
                            (ltb (length summary.supporting_indicators)
                              config.response.min_supporting_indicators)
                            "not enough supporting indicators for internal isolation"
                          ++ when
                              (ltb (length summary.independent_engines)
                                config.response.min_independent_engines)
                              "not enough independent engines for internal isolation")))))

  -- The second half: the kind of evidence, the baseline and the rate of isolations.
  unfoldable pub kind_reasons :
      (now : ℕ) (store : Store) (target_ip : String) → EvidenceSummary → List String
  kind_reasons now store target_ip summary =
      when summary.ml_only "machine-learning evidence cannot isolate a client by itself"
      ++ (when (is_subset summary.categories noisy_single_signal_categories)
            "single-signal scan, signature, or reputation evidence cannot isolate an internal client"
          ++ (when summary.all_prevented_or_blocked
                "prevented or blocked events alone cannot justify internal isolation"
              ++ (when
                    (ltb (host_baseline_observations target_ip store)
                      config.response.baseline_stable_observations)
                    "host baseline is not stable enough for automatic isolation"
                  ++ (when
                        (ltb 0 config.response.internal_isolation_cooldown_seconds
                          && leb 1 (
                              recent_automatic_internal_block_count p.ipaddress now
                                config.response.internal_isolation_cooldown_seconds store))
                        "internal auto-isolation cooldown is active"
                      ++ when
                          (leb config.response.max_internal_isolations_per_hour
                            (recent_automatic_internal_block_count p.ipaddress now 3600 store))
                          "internal auto-isolation hourly rate limit reached"))))

  unfoldable pub internal_isolation_reasons :
      (now : ℕ) (store : Store) (target_ip : String) → EvidenceSummary → List String
  internal_isolation_reasons now store target_ip summary =
      amount_reasons summary ++ kind_reasons now store target_ip summary

  -- The tests that stand before the split on the target.
  unfoldable pub guard_reasons :
      (protected allowlisted target_is_internal : Bool) → LearningStatus → List String
  guard_reasons protected allowlisted target_is_internal learning =
      when config.response.kill_switch "global response kill switch is active"
      ++ (when config.response.maintenance_mode "maintenance mode is active"
          ++ (when protected "target is protected"
              ++ (when allowlisted "target is allowlisted or break-glass protected"
                  ++ ((if learning.active
                        then "learning phase is active" ∷ []
                        else when
                            (target_is_internal && not (learning_complete_for_response learning))
                            "learning phase is not complete for internal auto-isolation")
                      ++ (when (ltb incident.risk_score config.response.minimum_risk_score)
                            "incident risk score is below response threshold"
                          ++ (when (ltb incident.severity config.response.minimum_severity)
                                "incident severity is below response threshold"
                              ++ when below_confidence
                                  "incident confidence is below response threshold"))))))

  unfoldable pub side_reasons :
      (now : ℕ) (store : Store) (target_ip : String) (summary : EvidenceSummary)
      (target_is_internal : Bool)
      → List String
  side_reasons now store target_ip summary true =
      internal_isolation_reasons now store target_ip summary
  side_reasons now store target_ip summary false =
      when (not config.response.block_external) "automatic external blocking is disabled"

  unfoldable pub activation_reasons : (target_is_internal : Bool) → List String
  activation_reasons target_is_internal =
      when (target_is_internal && not config.response.ai_full_decision_mode)
        "AI full decision mode is not enabled for internal auto-isolation"

  -- The status for a mode, and the reasons with the one that the mode may add.
  unfoldable pub policy_status :
      (mode : String) (reasons activation : List String) → PolicyStatus × List String
  policy_status mode reasons activation =
      if str_eq mode "observe"
      then (observe, reasons ++ "response policy is in observe mode" ∷ [])
      else if str_eq mode "recommend"
      then (elim reasons [ [] ↦ recommend | _ ∷ _ ↦ denied ], reasons)
      else if str_eq mode "enforce"
      then (
        elim reasons [ [] ↦ elim activation [ [] ↦ enforce | _ ∷ _ ↦ recommend ] | _ ∷ _ ↦ denied ],
        reasons,
      )
      else (denied, reasons ++ concat "invalid response policy mode: " mode ∷ [])

  -- `int(incident.get("detection_count") or summary["detections_considered"] or 0)`
  unfoldable pub count_or : ℕ → ℕ → ℕ
  count_or zero default = default
  count_or (suc n) default = suc n

  -- The statuses of `_decision_layers`; its other entries repeat their arguments.
  unfoldable pub decision_layers :
      (target_is_internal : Bool) (summary : EvidenceSummary) → PolicyStatus → DecisionLayers
  unfolding count_or
  decision_layers target_is_internal summary status =
      let detection_count = count_or incident.detection_count summary.detections_considered in
      let thresholds =
        leb config.response.minimum_risk_score incident.risk_score
        && leb config.response.minimum_severity incident.severity
        && not below_confidence in
      let evidence =
        leb config.response.min_internal_event_count incident.event_count
        && leb config.response.min_internal_detection_count detection_count
        && leb config.response.min_internal_categories (length summary.categories)
        && leb config.response.min_supporting_indicators (length summary.supporting_indicators)
        && leb config.response.min_independent_engines (length summary.independent_engines)
        && meets summary.categories strong_internal_categories
        && not summary.ml_only
        && not (is_subset summary.categories noisy_single_signal_categories)
        && not summary.all_prevented_or_blocked in
      record {
        observed = ltb 0 detection_count;
        likely_compromised = target_is_internal && thresholds && evidence;
        containment_eligible = may_propose status;
        execution_allowed = may_activate status;
      }

  unfoldable pub evaluate_automatic_response_policy :
      (now : ℕ) (store : Store) (target_ip : String) (protected allowlisted : Bool) → Decision
  unfolding guard_reasons side_reasons activation_reasons policy_status decision_layers
  evaluate_automatic_response_policy now store target_ip protected allowlisted =
      let summary = evidence_summary p.floats p.texts incident config in
      let internal = is_private_ip p.ipaddress target_ip in
      let learning = learning_status p.parse_datetime config.detection now in
      let found =
        guard_reasons protected allowlisted internal learning
        ++ side_reasons now store target_ip summary internal in
      let activation = activation_reasons internal in
      let (status, reasons) = policy_status config.response.mode found activation in
      record {
        status = status;
        target_ip = target_ip;
        target_internal = internal;
        proposal_allowed = may_propose status;
        activation_allowed = may_activate status;
        blocking_reasons = reasons;
        activation_reasons = activation;
        learning_status = learning;
        evidence = summary;
        decision_layers = decision_layers internal summary status;
      }
