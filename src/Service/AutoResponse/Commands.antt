-- ===== src/Service/AutoResponse/Commands.antt =====
-- When `_auto_response` of service.py runs commands on the packet filter.
use pondsecndr.Prelude.{
  ℕ, suc, ◌≡◌, ◌⊎◌, inl, inr, refl, ◌∙◌, subst, arith, Bool, true, false, not, ◌&&◌, List, [], ◌∷◌,
  Option, none, length, ltb, str_eq, is_empty, Bool-cases,
}
use pondsecndr.Python.Result.{
  Result, ok, raise, response_denied, normalization_error, type_error, attribute_error,
  integrity_error, value_error, overflow_error, Result-cases,
}
use pondsecndr.Config.{PondSecConfig}
use pondsecndr.Storage.{Store}
use pondsecndr.Response.Policy.{
  Platform, Decision, PolicyStatus, observe, recommend, denied, enforce, may_activate,
  evaluate_automatic_response_policy,
}
use pondsecndr.Response.Pf.{Shell, Enforcer}
use pondsecndr.Response.Engine.{System, Proposal, Subject, find_subject}
use pondsecndr.Response.Engine.Propose.{propose_block_for_incident}
use pondsecndr.Response.Engine.Propose.Safety.{asked, propose_block_for_incident-IsSafe}
use pondsecndr.Service.Rate.{consume_rate}
use pondsecndr.Service.AutoResponse.{
  Candidate, Moment, Service, Outcome, audit_store, keep_error, call_at, activation_allowed,
  follow_up, attempt, caught, respond, respond_all, observe_all, auto_response,
}

module _ (p : Platform) (config : PondSecConfig) (shell : Shell) (pf : Enforcer) where
  follow_up-commands :
      (mass : Bool) (m : Moment) (c : Candidate) (proposal : Proposal) (s : System)
      → (str_eq config.response.mode "enforce"
          && not mass
          && activation_allowed p config shell pf proposal.policy_decision)
        ≡ false
      → (follow_up p config shell pf mass m c proposal s).1.commands ≡ s.commands
  unfolding follow_up audit_store
  follow_up-commands mass m c proposal s h = ground arith

  -- The whole policy enforces a response to the incident, and the configuration acts on it.
  pub record Enforced (mass : Bool) (m : Moment) (c : Candidate) (store : Store) : Type 0 where
    pub mode : str_eq config.response.mode "enforce" ≡ true
    pub few_candidates : mass ≡ false
    pub subject : Subject
    pub is_found : find_subject p config m.now c.incident_id store ≡ ok subject
    pub unprotected : subject.protected ≡ false
    pub unlisted : subject.allowlisted ≡ false
    pub policy :
        (evaluate_automatic_response_policy p config subject.incident m.now store subject.target
          subject.protected subject.allowlisted).status
        ≡ enforce

  may_activate-enforce : (status : PolicyStatus) → may_activate status ≡ true → status ≡ enforce
  may_activate-enforce enforce h = refl
  may_activate-enforce observe h = absurd (ground arith)
  may_activate-enforce recommend h = absurd (ground arith)
  may_activate-enforce denied h = absurd (ground arith)

  asked-enforce :
      (m : Moment) (subject : Subject) (store : Store) (decision : Option Decision)
      → decision ≡ asked p config (call_at p config shell pf m) true subject store
      → activation_allowed p config shell pf decision ≡ true
      → (evaluate_automatic_response_policy p config subject.incident m.now store subject.target
          subject.protected subject.allowlisted).status
        ≡ enforce
  unfolding asked call_at activation_allowed evaluate_automatic_response_policy
  asked-enforce m subject store decision e h =
      may_activate-enforce _ (subst (λ d. activation_allowed p config shell pf d ≡ true) e h)

  follow_up-Enforced :
      (mass : Bool) (m : Moment) (c : Candidate) (proposal : Proposal) (s after : System)
      → (propose_block_for_incident p config
          (call_at p config shell pf m)
          c.incident_id
          none
          true
          s.store).0
        ≡ ok proposal
      → after.commands ≡ s.commands
      → ((follow_up p config shell pf mass m c proposal after).1.commands ≡ s.commands)
        ⊎ Enforced mass m c s.store
  unfolding call_at
  follow_up-Enforced mass m c proposal s after e same =
      elim (Bool-cases (
        str_eq config.response.mode "enforce"
        && not mass
        && activation_allowed p config shell pf proposal.policy_decision)) [
          | inr quiet ↦ inl (follow_up-commands mass m c proposal after quiet ∙ same)
          | inl acts ↦
              let (subject, found, safe) =
                propose_block_for_incident-IsSafe p config (call_at p config shell pf m)
                  c.incident_id none true s.store proposal e in
              inr (record {
                mode = ground (arith, acts);
                few_candidates = ground (arith, acts);
                subject = subject;
                is_found = found;
                unprotected = safe.admitted.unprotected;
                unlisted = safe.admitted.unlisted;
                policy =
                    asked-enforce m subject s.store _ safe.placed.decided (ground (arith, acts));
              })
        ]

  -- The attempt on one incident runs no command on the packet filter, or the policy enforces a
  -- response to it: in mode enforce, without too many candidates, and for a target that is neither
  -- protected nor on an enforced allowlist.
  pub attempt-Enforced :
      (mass : Bool) (m : Moment) (c : Candidate) (s : System)
      → ((attempt p config shell pf mass m c s).1.commands ≡ s.commands) ⊎ Enforced mass m c s.store
  unfolding attempt
  attempt-Enforced mass m c s =
      elim (Result-cases
        (propose_block_for_incident p config (call_at p config shell pf m) c.incident_id none true
          s.store).0) [
            | inr (e, failed) ↦ inl (rw (attempt, failed) refl)
            | inl (proposal, proposed) ↦
                rw (attempt, proposed) (follow_up-Enforced mass m c proposal s _ proposed refl)
          ]

  caught-system :
      (c : Candidate) (r : Result Outcome) (s : Service)
      → (caught p config shell pf c r s).1.system ≡ s.system
  unfolding caught keep_error
  caught-system c (ok outcome) s = refl
  caught-system c (raise (response_denied reason)) s = ground arith
  caught-system c (raise type_error) s = refl
  caught-system c (raise integrity_error) s = refl
  caught-system c (raise attribute_error) s = refl
  caught-system c (raise (normalization_error m)) s = refl
  caught-system c (raise value_error) s = refl
  caught-system c (raise overflow_error) s = refl

  attempt-commands :
      (mass : Bool) (m : Moment) (c : Candidate) (s : System)
      → (str_eq config.response.mode "enforce" && not mass) ≡ false
      → (attempt p config shell pf mass m c s).1.commands ≡ s.commands
  attempt-commands mass m c s h = elim (attempt-Enforced mass m c s) [
    | inl same ↦ same
    | inr enforced ↦ absurd (ground (arith, h, enforced.mode, enforced.few_candidates))
  ]

  -- One incident, in a run that may not act.
  respond-commands :
      (mass : Bool) (m : Moment) (c : Candidate) (s : Service)
      → (str_eq config.response.mode "enforce" && not mass) ≡ false
      → (respond p config shell pf mass m c s).1.system.commands ≡ s.system.commands
  unfolding respond
  respond-commands mass m c s h =
      let (granted, timestamps) =
        consume_rate s.pf_action_rate_timestamps config.pf_action_rate_limit_per_minute m.now in
      let counted = record s { pf_action_rate_timestamps = timestamps } in
      let (result, system) = attempt p config shell pf mass m c s.system in
      ground (
        arith,
        caught-system c result (record counted { system = system }),
        attempt-commands mass m c s.system h,
      )

  respond_all-commands :
      (mass : Bool) (clock : ℕ → Moment) (cs : List Candidate) (s : Service)
      → (str_eq config.response.mode "enforce" && not mass) ≡ false
      → (respond_all p config shell pf mass clock cs s).1.system.commands ≡ s.system.commands
  unfolding respond_all
  respond_all-commands mass clock [] s h = refl
  respond_all-commands mass clock (c ∷ cs) s h = elim (Bool-cases (is_empty c.incident_id)) [
    | inl unnamed ↦
        rw (respond_all, unnamed) (respond_all-commands mass (λ n. clock (suc n)) cs s h)
    | inr named ↦
        rw (respond_all, named)
          (respond_all-commands mass (λ n. clock (suc n)) cs _ h
            ∙ respond-commands mass (clock 0) c s h)
  ]

  observe_all-commands :
      (clock : ℕ → Moment) (cs : List Candidate) (s : Service)
      → (observe_all p config shell pf clock cs s).1.system.commands ≡ s.system.commands
  unfolding observe_all audit_store
  observe_all-commands clock [] s = refl
  observe_all-commands clock (c ∷ cs) s = observe_all-commands (λ n. clock (suc n)) cs _

  -- A run executes no command on the packet filter unless automatic blocking is on, the mode is to
  -- enforce, and there are no more candidates than the configuration allows.
  pub auto_response-commands :
      (clock : ℕ → Moment) (cs : List Candidate) (s : Service)
      → (config.response.automatic_blocking
          && str_eq config.response.mode "enforce"
          && not (ltb config.response.max_auto_isolation_candidates_per_run (length cs)))
        ≡ false
      → (auto_response p config shell pf clock cs s).1.system.commands ≡ s.system.commands
  unfolding auto_response
  auto_response-commands clock cs s h = ground (
    arith,
    h,
    observe_all-commands clock cs s,
    respond_all-commands (ltb config.response.max_auto_isolation_candidates_per_run (length cs))
        clock cs s,
  )
