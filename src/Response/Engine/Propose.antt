-- ===== src/Response/Engine/Propose.antt =====
-- `propose_block_for_incident` and `propose_manual_block` of response/engine.py.
pub mod Found
pub mod Placed
pub mod Safety
use Prim.Native.String.{◌++◌ as concat}
use pondsecndr.Prelude.{
  ℕ, ◌+◌, ◌*◌, min, String, Bool, true, false, not, ◌&&◌, ◌++◌, Option, none, some, ltb, is_empty,
  if◌then◌else◌,
}
use pondsecndr.Prelude.Int.{pos}
use pondsecndr.Python.Result.{◌>>=◌, ◌>>◌, Result, ok, raise, response_denied, deny, Action, run}
use pondsecndr.Python.Ipaddress.{is_private_ip}
use pondsecndr.Config.{PondSecConfig}
use pondsecndr.Storage.{
  BlockEntry, proposed, Incident, Store, audit_response_decision, is_some_text,
}
use pondsecndr.Storage.Blocks.{microseconds, add_block_entry, existing_response_block}
use pondsecndr.Response.Policy.{
  Platform, Decision, evaluate_automatic_response_policy, below_confidence,
}
use pondsecndr.Response.Engine.{
  Call, Proposal, Subject, join, duration_or, find_subject, check_source,
}

module _ (p : Platform) (config : PondSecConfig) where
  unfoldable pub policy_answer : Decision → (allowed : Bool) → Result (Option Decision)
  policy_answer decision true = ok (some decision)
  policy_answer decision false = raise (
      response_denied (
        concat "response policy denied: "
          (join (decision.blocking_reasons ++ decision.activation_reasons))))

  -- Under `automatic` the policy is asked, its decision recorded, and a denial raised.
  unfoldable pub ask_policy :
      Call → (incident_id : String) (automatic : Bool) → Subject → Action Store (Option Decision)
  ask_policy call incident_id false subject store = (ok none, store)
  ask_policy call incident_id true subject store =
      let decision =
        evaluate_automatic_response_policy p config subject.incident call.now store subject.target
          subject.protected subject.allowlisted in
      (
        policy_answer decision decision.proposal_allowed,
        audit_response_decision call.now incident_id "response.policy_decision" call.actor store,
      )

  -- The tests that every proposal passes, automatic or not.
  unfoldable pub admit : (automatic : Bool) → Subject → Result (Unit {0})
  admit automatic subject = do
    deny subject.protected (response_denied "source IP is protected")
    deny subject.allowlisted (response_denied "source IP is allowlisted")
    deny
        (automatic
          && is_private_ip p.ipaddress subject.target
          && not config.response.isolate_internal)
        (response_denied "automatic internal isolation is disabled")
    deny
        (automatic
          && not (is_private_ip p.ipaddress subject.target)
          && not config.response.block_external)
        (response_denied "automatic external blocking is disabled")
    deny (ltb subject.incident.risk_score config.response.minimum_risk_score)
        (response_denied "incident risk score is below response threshold")
    deny (below_confidence p config subject.incident)
        (response_denied "incident confidence is below response threshold")

  unfoldable pub response_reason : Incident → String → String
  response_reason incident target =
      if not (is_some_text incident.source_ip target) && is_private_ip p.ipaddress target
      then concat "Isolation proposal for internal host "
          (concat target (concat " from incident " incident.incident_id))
      else concat "Response proposal for incident " incident.incident_id

  unfoldable pub block_seconds : (automatic : Bool) (duration_seconds : Option ℕ) → ℕ
  block_seconds automatic duration_seconds =
      min
        (duration_or duration_seconds (
          if automatic
          then config.response.auto_isolation_seconds
          else config.response.default_block_seconds))
        config.response.max_block_seconds

  unfoldable pub new_entry :
      Call
      → (incident_id : String) (automatic : Bool) (duration_seconds : Option ℕ) → Subject
      → BlockEntry
  new_entry call incident_id automatic duration_seconds subject = record {
    block_id = call.fresh;
    incident_id = some incident_id;
    source_ip = subject.target;
    destination = subject.incident.destination_ip;
    reason = response_reason subject.incident subject.target;
    risk_score = subject.incident.risk_score;
    confidence = subject.incident.confidence;
    policy_id = none;
    created_at = call.now;
    expires_at = call.now + block_seconds automatic duration_seconds * microseconds;
    created_by = call.actor;
    automatic = automatic;
    status = proposed;
    removal_reason = none;
  }

  unfoldable pub place_by :
      Call
      → (entry : BlockEntry) → (decision : Option Decision) → Store
      → (of_incident of_source : Option BlockEntry) → Proposal × Store
  place_by call entry decision store (some block) of_source =
      (record { block = block; policy_decision = decision }, store)
  place_by call entry decision store none (some block) =
      (record { block = block; policy_decision = decision }, store)
  place_by call entry decision store none none = (
    record { block = entry; policy_decision = decision },
    add_block_entry call.now entry call.actor store,
  )

  -- The block of the incident and target, else one of the target, else a new one.
  unfoldable pub place :
      Call
      → (incident_id : String) → (entry : BlockEntry) → (decision : Option Decision) → Store
      → Proposal × Store
  place call incident_id entry decision store =
      place_by call entry decision store
        (existing_response_block call.now (some incident_id) (some entry.source_ip) store)
        (existing_response_block call.now none (some entry.source_ip) store)

  -- What follows the policy.
  unfoldable pub settle_by :
      Call
      → (incident_id : String) → (entry : BlockEntry) → Option Decision
      → Result (Unit {0})
      → Action Store Proposal
  settle_by call incident_id entry decision (raise e) store = (raise e, store)
  settle_by call incident_id entry decision (ok _) store =
      let (proposal, after) = place call incident_id entry decision store in (ok proposal, after)

  unfoldable pub settle :
      Call
      → (incident_id : String) (automatic : Bool) (duration_seconds : Option ℕ) → Subject
      → Option Decision
      → Action Store Proposal
  settle call incident_id automatic duration_seconds subject decision store =
      settle_by call incident_id (new_entry call incident_id automatic duration_seconds subject)
        decision (admit automatic subject) store

  unfoldable pub propose_for :
      Call
      → (incident_id : String) (duration_seconds : Option ℕ) (automatic : Bool) → Result Subject
      → Action Store Proposal
  propose_for call incident_id duration_seconds automatic (raise e) store = (raise e, store)
  propose_for call incident_id duration_seconds automatic (ok subject) store =
      run (ask_policy call incident_id automatic subject store)
        (settle call incident_id automatic duration_seconds subject)

  unfoldable pub propose_block_for_incident :
      Call
      → (incident_id : String) (duration_seconds : Option ℕ) (automatic : Bool)
      → Action Store Proposal
  propose_block_for_incident call incident_id duration_seconds automatic store =
      propose_for call incident_id duration_seconds automatic
        (find_subject p config call.now incident_id store) store

  unfoldable pub manual_entry :
      Call
      → (source_ip : String) (reason : Option String) (duration_seconds : Option ℕ) → BlockEntry
  manual_entry call source_ip reason duration_seconds = record {
    block_id = call.fresh;
    incident_id = none;
    source_ip = source_ip;
    destination = none;
    reason = elim reason [
      | none ↦ "Manual blocklist entry"
      | some r ↦ if is_empty r then "Manual blocklist entry" else r
    ];
    risk_score = config.response.minimum_risk_score;
    confidence = p.floats.of_int (pos 1);
    policy_id = some "manual";
    created_at = call.now;
    expires_at = call.now + block_seconds false duration_seconds * microseconds;
    created_by = call.actor;
    automatic = false;
    status = proposed;
    removal_reason = none;
  }

  unfoldable pub propose_manual_block :
      Call
      → (target : String) (reason : Option String) (duration_seconds : Option ℕ)
      → Action Store BlockEntry
  propose_manual_block call target reason duration_seconds store =
      elim (check_source p config call.now target store) [
        | raise e ↦ (raise e, store)
        | ok source_ip ↦ elim (existing_response_block call.now none (some source_ip) store) [
          | some block ↦ (ok block, store)
          | none ↦ (
            ok (manual_entry call source_ip reason duration_seconds),
            add_block_entry call.now (manual_entry call source_ip reason duration_seconds)
                call.actor store,
          )
        ]
      ]
