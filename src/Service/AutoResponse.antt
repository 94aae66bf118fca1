-- ===== src/Service/AutoResponse.antt =====
-- `_auto_response` of service.py: what is done about the incidents of one run.
pub mod Commands
pub mod Pace
use Prim.Native.String.{◌++◌ as concat}
use pondsecndr.Prelude.{
  ℕ, suc, String, Bool, true, false, not, ◌&&◌, List, [], ◌∷◌, Option, none, some, take, length,
  ltb, str_eq, is_empty, is_in, starts_with, all, if◌then◌else◌,
}
use pondsecndr.Python.Value.{Value, get, str}
use pondsecndr.Python.Result.{Result, ok, raise, response_denied}
use pondsecndr.Config.{PondSecConfig}
use pondsecndr.Storage.{BlockStatus, active, audit_response_decision}
use pondsecndr.Response.Evidence.{detections_of}
use pondsecndr.Response.Policy.{Platform, Decision}
use pondsecndr.Response.Pf.{Shell, Enforcer}
use pondsecndr.Response.Engine.{System, Call, Proposal, Activation, join}
use pondsecndr.Response.Engine.Propose.{propose_block_for_incident}
use pondsecndr.Response.Engine.Activate.{activate_block}
use pondsecndr.Service.Rate.{consume_rate}

-- What the function reads of an incident that `correlate_detections` built.
pub record Candidate : Type 0 where
  pub incident_id : String
  pub source_ip : Option String
  pub evidence : Value

pub data Outcome : Type 0 where
  observed skipped_rate skipped_manual : Outcome
  recommended : (reason : String) → Outcome
  reported : BlockStatus → Outcome
  activated : (verified : Bool) → Outcome
  denied : (reason : String) → Outcome
  failed : Outcome

pub record Report : Type 0 where
  pub incident_id : String
  pub outcome : Outcome

pub record Service : Type 0 where
  pub system : System
  pub pf_action_rate_timestamps : List ℕ
  pub last_response_errors : List String

-- One reading of the clock, and the id that `uuid4` gives then.
pub record Moment : Type 0 where
  pub now : ℕ
  pub fresh : String

unfoldable pub is_expected_response_denial : String → Bool
is_expected_response_denial reason =
    if starts_with reason "response policy denied:"
    then true
    else is_in reason (
        "source IP is protected" ∷ "source IP is allowlisted"
        ∷ "incident risk score is below response threshold"
        ∷ "incident confidence is below response threshold"
        ∷ "automatic internal isolation is disabled"
        ∷ "automatic internal isolation is disabled during learning mode"
        ∷ "automatic external blocking is disabled" ∷ [])

unfoldable pub is_baseline_detection : Value → Bool
is_baseline_detection (str s) = str_eq s "pondsec.host_baseline_anomaly"
is_baseline_detection _ = false

-- The set of detector ids is the one of the host baseline.
unfoldable pub requires_manual_response : Candidate → Bool
requires_manual_response c = elim (detections_of c.evidence) [
  | [] ↦ false
  | d ∷ ds ↦ all (λ e. is_baseline_detection (get e "detector_id")) (d ∷ ds)
]

unfoldable pub audit_store : Moment → (incident_id action : String) → System → System
audit_store m incident_id action s = record s {
  store = audit_response_decision m.now incident_id action "auto-response" s.store;
}

unfoldable pub keep_error : String → Service → Service
keep_error message s = record s { last_response_errors = take 5 (message ∷ s.last_response_errors) }

module _ (p : Platform) (config : PondSecConfig) (shell : Shell) (pf : Enforcer) where
  unfoldable pub call_at : Moment → Call
  call_at m = record { now = m.now; fresh = m.fresh; actor = "auto-prevent" }

  -- `policy_decision.get("activation_allowed", mode == "enforce")`
  unfoldable pub activation_allowed : Option Decision → Bool
  activation_allowed none = str_eq config.response.mode "enforce"
  activation_allowed (some d) = d.activation_allowed

  unfoldable pub fallback_reason : Option Decision → String
  fallback_reason none = "response policy requires recommendation before activation"
  fallback_reason (some d) = elim (d.activation_reasons) [
    | [] ↦ elim (d.blocking_reasons) [
      | [] ↦ "response policy requires recommendation before activation"
      | r ∷ rs ↦ join (r ∷ rs)
    ]
    | r ∷ rs ↦ join (r ∷ rs)
  ]

  unfoldable pub is_active_block : BlockStatus → Bool
  is_active_block active = true
  is_active_block _ = false

  unfoldable pub activation_outcome : Result Activation → Result Outcome
  activation_outcome (ok a) = ok (activated a.succeeded)
  activation_outcome (raise e) = raise e

  -- What follows a proposal.
  unfoldable pub follow_up :
      (mass_isolation_safety : Bool)
      → Moment
      → Candidate
      → Proposal
      → System
      → Result Outcome × System
  follow_up mass_isolation_safety m c proposal s =
      let enforcing = str_eq config.response.mode "enforce" in
      if mass_isolation_safety
      then (
        ok (recommended "too many automatic response candidates; falling back to recommend"),
        audit_store m c.incident_id "response.mass_isolation_safety" s,
      )
      else if enforcing && not (activation_allowed proposal.policy_decision)
      then (
        ok (recommended (fallback_reason proposal.policy_decision)),
        audit_store m c.incident_id "response.activation_fallback" s,
      )
      else if enforcing && not (is_active_block proposal.block.status)
      then (let (result, after) =
            activate_block p config shell pf (call_at m) proposal.block.block_id s in
          (activation_outcome result, after))
      else if str_eq config.response.mode "recommend"
      then (ok (recommended "response policy is in recommend mode"), s)
      else (ok (reported proposal.block.status), s)

  -- The `try` block.
  unfoldable pub attempt :
      (mass_isolation_safety : Bool) → Moment → Candidate → System → Result Outcome × System
  attempt mass_isolation_safety m c s =
      let (result, store) =
        propose_block_for_incident p config (call_at m) c.incident_id none true s.store in
      let after = record s { store = store } in
      elim result [
        | raise e ↦ (raise e, after)
        | ok proposal ↦ follow_up mass_isolation_safety m c proposal after
      ]

  -- The two `except` clauses.
  unfoldable pub caught : Candidate → Result Outcome → Service → Report × Service
  caught c (ok outcome) s = (record { incident_id = c.incident_id; outcome = outcome }, s)
  caught c (raise (response_denied reason)) s = (
    record { incident_id = c.incident_id; outcome = denied reason },
    (if is_expected_response_denial reason
        then s
        else keep_error (concat c.incident_id (concat ": " reason)) s),
  )
  caught c (raise _) s = (
    record { incident_id = c.incident_id; outcome = failed },
    keep_error (concat c.incident_id ": response error") s,
  )

  unfoldable pub respond :
      (mass_isolation_safety : Bool) → Moment → Candidate → Service → Report × Service
  respond mass_isolation_safety m c s =
      let (granted, timestamps) =
        consume_rate s.pf_action_rate_timestamps config.pf_action_rate_limit_per_minute m.now in
      let counted = record s { pf_action_rate_timestamps = timestamps } in
      if not granted
      then (record { incident_id = c.incident_id; outcome = skipped_rate }, counted)
      else if requires_manual_response c
      then (record { incident_id = c.incident_id; outcome = skipped_manual }, counted)
      else (let (result, system) = attempt mass_isolation_safety m c counted.system in
          caught c result (record counted { system = system }))

  unfoldable pub respond_all :
      (mass_isolation_safety : Bool) (clock : ℕ → Moment)
      → List Candidate
      → Service
      → List Report × Service
  respond_all mass clock [] s = ([], s)
  respond_all mass clock (c ∷ cs) s = elim (is_empty c.incident_id) [
    | true ↦ respond_all mass (λ n. clock (suc n)) cs s
    | false ↦
        (let (report, after) = respond mass (clock 0) c s in
          let (reports, last) = respond_all mass (λ n. clock (suc n)) cs after in
          (report ∷ reports, last))
  ]

  unfoldable pub observe_all :
      (clock : ℕ → Moment) → List Candidate → Service → List Report × Service
  observe_all clock [] s = ([], s)
  observe_all clock (c ∷ cs) s =
      let audited = record s {
        system = audit_store (clock 0) c.incident_id "response.observe" s.system;
      } in
      let (reports, last) = observe_all (λ n. clock (suc n)) cs audited in
      (record { incident_id = c.incident_id; outcome = observed } ∷ reports, last)

  -- `clock` gives the moment of each incident.
  unfoldable pub auto_response :
      (clock : ℕ → Moment) → List Candidate → Service → List Report × Service
  auto_response clock incidents s =
      if not config.response.automatic_blocking
      then ([], s)
      else if str_eq config.response.mode "observe"
      then observe_all clock incidents s
      else respond_all
          (ltb config.response.max_auto_isolation_candidates_per_run (length incidents)) clock
          incidents s
