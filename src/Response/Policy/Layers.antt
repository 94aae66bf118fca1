-- ===== src/Response/Policy/Layers.antt =====
-- How the layers of a decision of response/policy.py fit its status.
use pondsecndr.Prelude.{ℕ, zero, suc, ap, ◌≤◌, ◌≡◌, arith, String, Bool, true}
use pondsecndr.Python.Ipaddress.{is_private_ip}
use pondsecndr.Config.{PondSecConfig}
use pondsecndr.Config.Learning.{LearningStatus, learning_status}
use pondsecndr.Storage.{Incident, Store}
use pondsecndr.Response.Evidence.{EvidenceSummary, evidence_summary}
use pondsecndr.Response.Policy.{
  Platform, PolicyStatus, enforce, decision_layers, count_or, evaluate_automatic_response_policy,
  may_propose, may_activate,
}
use pondsecndr.Response.Policy.Eligibility.{Guarded, HasAmount, HasKind, decision-enforce_iff}

module _ (p : Platform) (config : PondSecConfig) (incident : Incident) (now : ℕ) (store : Store)
    (target_ip : String) (protected allowlisted : Bool) where
  count_or-le : (n m k : ℕ) → k ≤ n → k ≤ count_or p config incident n m
  unfolding count_or
  count_or-le zero m k h = omega arith
  count_or-le (suc n) m k h = h

  layers-compromised :
      (summary : EvidenceSummary) (learning : LearningStatus) (status : PolicyStatus)
      → Guarded p config incident protected allowlisted learning
      → HasAmount p config incident summary
      → HasKind p config incident now store target_ip summary
      → (decision_layers p config incident true summary status).likely_compromised ≡ true
  unfolding decision_layers
  layers-compromised summary learning status g a k =
      let enough =
        count_or-le incident.detection_count summary.detections_considered
          config.response.min_internal_detection_count a.detections in
      ground (arith, g, a, k, enough)

  -- An internal target whose response is enforced is likely compromised in the layers of the same
  -- decision, and the containment and the execution are allowed there.
  pub decision-compromised :
      is_private_ip p.ipaddress target_ip ≡ true
      → (evaluate_automatic_response_policy p config incident now store target_ip protected
          allowlisted).status
        ≡ enforce
      → ((evaluate_automatic_response_policy p config incident now store target_ip protected
            allowlisted).decision_layers.likely_compromised
          ≡ true)
        × ((evaluate_automatic_response_policy p config incident now store target_ip protected
              allowlisted).decision_layers.containment_eligible
            ≡ true)
        × ((evaluate_automatic_response_policy p config incident now store target_ip protected
              allowlisted).decision_layers.execution_allowed
            ≡ true)
  unfolding evaluate_automatic_response_policy
  decision-compromised internal status =
      let (mode, guarded, proposable, ai) =
        (decision-enforce_iff p config incident now store target_ip protected allowlisted).0
          status in
      let summary = evidence_summary p.floats p.texts incident config in
      let learning = learning_status p.parse_datetime config.detection now in
      (
        rw internal (
            layers-compromised summary learning enforce guarded (proposable.amount internal)
              (proposable.kind internal)),
        ap may_propose status,
        ap may_activate status,
      )
