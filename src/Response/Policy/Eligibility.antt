-- ===== src/Response/Policy/Eligibility.antt =====
-- When the policy lets a response through, stated without its lists of reasons.
use pondsecndr.Prelude.{
  ℕ, ◌≤◌, ◌<◌, ◌≡◌, ◌↔◌, String, Bool, true, false, List, [], ◌∷◌, ◌++◌, ◌⊎◌, refl, sym, ◌∙◌, arith,
  eq_iff, length, str_eq, meets, is_subset, inl, inr,
}
use pondsecndr.Python.Ipaddress.{is_private_ip}
use pondsecndr.Config.{PondSecConfig}
use pondsecndr.Config.Learning.{LearningStatus, learning_status}
use pondsecndr.Storage.{Incident, Store, host_baseline_observations}
use pondsecndr.Storage.Blocks.{recent_automatic_internal_block_count}
use pondsecndr.Response.Evidence.{
  EvidenceSummary, evidence_summary, strong_internal_categories, noisy_single_signal_categories,
}
use pondsecndr.Response.Policy.{
  enforce, may_propose, Platform, learning_complete_for_response, below_confidence, amount_reasons,
  kind_reasons, internal_isolation_reasons, guard_reasons, side_reasons, activation_reasons,
  policy_status, evaluate_automatic_response_policy, Decision,
}

append-eq-nil {ℓ} : {A : Type ℓ} (xs ys : List A) → xs ++ ys ≡ [] → (xs ≡ []) × (ys ≡ [])
append-eq-nil [] ys h = ground arith
append-eq-nil (x ∷ xs) ys h = ground arith

-- The two modes in which proposals are made.
abbrev pub Responds : String → Type 0
Responds mode = (str_eq mode "recommend" ≡ true) ⊎ (str_eq mode "enforce" ≡ true)

module _ (p : Platform) (config : PondSecConfig) (incident : Incident) where
  -- The tests that hold for every target.
  pub record Guarded (protected allowlisted : Bool) (learning : LearningStatus) : Type 0 where
    pub kill_switch : config.response.kill_switch ≡ false
    pub maintenance_mode : config.response.maintenance_mode ≡ false
    pub unprotected : protected ≡ false
    pub unlisted : allowlisted ≡ false
    pub learned : learning.active ≡ false
    pub risk_score : config.response.minimum_risk_score ≤ incident.risk_score
    pub severity : config.response.minimum_severity ≤ incident.severity
    pub confidence : below_confidence p config incident ≡ false

  -- The amount of evidence that the isolation of an internal host needs.
  pub record HasAmount (summary : EvidenceSummary) : Type 0 where
    pub isolate_internal : config.response.isolate_internal ≡ true
    pub events : config.response.min_internal_event_count ≤ incident.event_count
    pub detections : config.response.min_internal_detection_count ≤ incident.detection_count
    pub categories : config.response.min_internal_categories ≤ length summary.categories
    pub strong : meets summary.categories strong_internal_categories ≡ true
    pub indicators :
        config.response.min_supporting_indicators ≤ length summary.supporting_indicators
    pub engines : config.response.min_independent_engines ≤ length summary.independent_engines

  -- Its kind, the baseline of the host, and the rate of isolations.
  pub record HasKind (now : ℕ) (store : Store) (target_ip : String) (summary : EvidenceSummary)
      : Type 0 where
    pub not_ml_only : summary.ml_only ≡ false
    pub not_noisy : is_subset summary.categories noisy_single_signal_categories ≡ false
    pub not_prevented : summary.all_prevented_or_blocked ≡ false
    pub baseline :
        config.response.baseline_stable_observations ≤ host_baseline_observations target_ip store
    pub cooldown :
        0 < config.response.internal_isolation_cooldown_seconds
        → recent_automatic_internal_block_count p.ipaddress now
            config.response.internal_isolation_cooldown_seconds store
          ≡ 0
    pub rate :
        recent_automatic_internal_block_count p.ipaddress now 3600 store
        < config.response.max_internal_isolations_per_hour

  guard_reasons-eq-nil :
      (protected allowlisted internal : Bool) (learning : LearningStatus)
      → (guard_reasons p config incident protected allowlisted internal learning ≡ []) ↔ (
          Guarded protected allowlisted learning
          × (internal ≡ true → learning_complete_for_response learning ≡ true))
  unfolding guard_reasons
  guard_reasons-eq-nil protected allowlisted internal learning =
      (λ e. (ground arith, λ i. ground arith), λ (g, complete). ground (arith, complete))

  amount_reasons-eq-nil :
      (summary : EvidenceSummary)
      → (amount_reasons p config incident summary ≡ []) ↔ HasAmount summary
  unfolding amount_reasons
  amount_reasons-eq-nil summary = (λ e. ground arith, λ g. ground arith)

  kind_reasons-eq-nil :
      (now : ℕ) (store : Store) (target_ip : String) (summary : EvidenceSummary)
      → (kind_reasons p config incident now store target_ip summary ≡ [])
        ↔ HasKind now store target_ip summary
  unfolding kind_reasons
  kind_reasons-eq-nil now store target_ip summary = (
    λ e. record {
      not_ml_only = ground arith;
      not_noisy = ground arith;
      not_prevented = ground arith;
      baseline = ground arith;
      cooldown = λ h. ground arith;
      rate = ground arith;
    },
    λ g. ground (arith, g.cooldown),
  )

  -- What a proposal asks beside the guards, by the side of the target.
  pub record Proposable (now : ℕ) (store : Store) (target_ip : String) (summary : EvidenceSummary)
      (learning : LearningStatus) (internal : Bool) : Type 0 where
    pub external : internal ≡ false → config.response.block_external ≡ true
    pub learned : internal ≡ true → learning_complete_for_response learning ≡ true
    pub amount : internal ≡ true → HasAmount summary
    pub kind : internal ≡ true → HasKind now store target_ip summary

  module _ (now : ℕ) (store : Store) (target_ip : String) (summary : EvidenceSummary) where
    side_reasons-eq-nil :
        (internal : Bool)
        → (side_reasons p config incident now store target_ip summary internal ≡ []) ↔ (
            (internal ≡ false → config.response.block_external ≡ true)
            × (internal ≡ true → HasAmount summary)
            × (internal ≡ true → HasKind now store target_ip summary))
    unfolding side_reasons internal_isolation_reasons
    side_reasons-eq-nil true =
        let amount = amount_reasons-eq-nil summary in
        let kind = kind_reasons-eq-nil now store target_ip summary in
        (
          λ e.
              let both = append-eq-nil _ _ e in (λ i. cc, λ i. amount.0 both.0, λ i. kind.0 both.1),
          λ (external, a, k). rw (amount.1 (a refl), kind.1 (k refl)) refl,
        )
    side_reasons-eq-nil false =
        (λ e. (λ i. ground arith, λ i. cc, λ i. cc), λ (external, a, k). rw (external refl) refl)

  activation_reasons-eq-nil :
      (internal : Bool)
      → (activation_reasons p config incident internal ≡ [])
        ↔ (internal ≡ true → config.response.ai_full_decision_mode ≡ true)
  unfolding activation_reasons
  activation_reasons-eq-nil internal = (λ e i. ground arith, λ h. ground (arith, h))

  policy_status-enforce :
      (mode : String) (reasons activation : List String)
      → ((policy_status p config incident mode reasons activation).0 ≡ enforce)
        ↔ ((str_eq mode "enforce" ≡ true) × (reasons ≡ []) × (activation ≡ []))
  unfolding policy_status
  policy_status-enforce mode reasons activation =
      (λ e. ground arith, λ (m, r, a). rw ((eq_iff mode "enforce").0 m, r, a) refl)

  policy_status-may_propose :
      (mode : String) (reasons activation : List String)
      → (may_propose (policy_status p config incident mode reasons activation).0 ≡ true)
        ↔ (Responds mode × (reasons ≡ []))
  unfolding policy_status
  policy_status-may_propose mode reasons activation = (
    λ e. ground arith,
    λ (m, r). elim m [
      | inl recommends ↦ rw ((eq_iff mode "recommend").0 recommends, r) refl
      | inr enforces ↦
          elim activation
            as (λ a. may_propose (policy_status p config incident mode reasons a).0 ≡ true) [
              | [] ↦ rw ((eq_iff mode "enforce").0 enforces, r) refl
              | x ∷ xs ↦ rw ((eq_iff mode "enforce").0 enforces, r) refl
            ]
    ],
  )

  module _ (now : ℕ) (store : Store) (target_ip : String) (protected allowlisted : Bool) where
    abbrev decision : Decision
    decision =
        evaluate_automatic_response_policy p config incident now store target_ip protected
          allowlisted

    abbrev internal : Bool
    internal = is_private_ip p.ipaddress target_ip

    abbrev learning : LearningStatus
    learning = learning_status p.parse_datetime config.detection now

    abbrev summary : EvidenceSummary
    summary = evidence_summary p.floats p.texts incident config

    abbrev found_reasons : List String
    found_reasons =
        guard_reasons p config incident protected allowlisted internal learning
        ++ side_reasons p config incident now store target_ip summary internal

    found_reasons-eq-nil : (found_reasons ≡ []) ↔ (
        Guarded protected allowlisted learning
        × Proposable now store target_ip summary learning internal)
    found_reasons-eq-nil =
        let guards = guard_reasons-eq-nil protected allowlisted internal learning in
        let sides = side_reasons-eq-nil now store target_ip summary internal in
        (
          λ e.
              let (g, s) = append-eq-nil _ _ e in
              let (guarded, learned) = guards.0 g in
              let (external, amount, kind) = sides.0 s in
              (
                guarded,
                record { external = external; learned = learned; amount = amount; kind = kind },
              ),
          λ (g, q). rw (guards.1 (g, q.learned), sides.1 (q.external, q.amount, q.kind)) refl,
        )

    status-decision :
        decision.status
        ≡ (policy_status p config incident config.response.mode found_reasons
            (activation_reasons p config incident internal)).0
    unfolding evaluate_automatic_response_policy
    status-decision = refl

    proposal-decision :
        decision.proposal_allowed
        ≡ may_propose
            (policy_status p config incident config.response.mode found_reasons
              (activation_reasons p config incident internal)).0
    unfolding evaluate_automatic_response_policy
    proposal-decision = refl

    -- The policy enforces a response exactly if the mode is to enforce, every guard holds, and the
    -- side of the target, internal or external, allows it.
    pub decision-enforce_iff : (decision.status ≡ enforce) ↔ (
        (str_eq config.response.mode "enforce" ≡ true)
        × Guarded protected allowlisted learning
        × Proposable now store target_ip summary learning internal
        × (internal ≡ true → config.response.ai_full_decision_mode ≡ true))
    decision-enforce_iff =
        let statuses =
          policy_status-enforce config.response.mode found_reasons
            (activation_reasons p config incident internal) in
        let ai = activation_reasons-eq-nil internal in
        (
          λ e.
              let (m, r, a) = statuses.0 (sym status-decision ∙ e) in
              let (g, q) = found_reasons-eq-nil.0 r in (m, g, q, ai.0 a),
          λ (m, g, q, a). status-decision ∙ statuses.1 (m, found_reasons-eq-nil.1 (g, q), ai.1 a),
        )

    -- The policy lets a response be proposed exactly if the mode is to recommend or to enforce,
    -- every guard holds, and the side of the target gives no reason against it.
    pub decision-proposal_iff : (decision.proposal_allowed ≡ true) ↔ (
        Responds config.response.mode
        × Guarded protected allowlisted learning
        × Proposable now store target_ip summary learning internal)
    decision-proposal_iff =
        let statuses =
          policy_status-may_propose config.response.mode found_reasons
            (activation_reasons p config incident internal) in
        (
          λ e.
              let (m, r) = statuses.0 (sym proposal-decision ∙ e) in
              let (g, q) = found_reasons-eq-nil.0 r in (m, g, q),
          λ (m, g, q). proposal-decision ∙ statuses.1 (m, found_reasons-eq-nil.1 (g, q)),
        )
