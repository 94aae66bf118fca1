-- ===== src/Response/Engine/Propose/Safety.antt =====
-- What `propose_block_for_incident` of response/engine.py guarantees of the proposals it returns.
use pondsecndr.Prelude.{
  ℕ, ◌≡◌, String, is_empty, Bool, true, false, Option, none, some, refl, subst, ◌++◌,
}
use pondsecndr.Python.Result.{Result, ok, raise, run}
use pondsecndr.Config.{PondSecConfig}
use pondsecndr.Storage.{audit_response_decision, Store}
use pondsecndr.Storage.Blocks.{existing_response_block}
use pondsecndr.Storage.Allowlist.{allowlist_values}
use pondsecndr.Response.Target.{is_protected_target, is_allowlisted}
use pondsecndr.Response.Policy.{Platform, Decision, evaluate_automatic_response_policy}
use pondsecndr.Response.Engine.{Call, Proposal, Subject, find_subject}
use pondsecndr.Response.Engine.Propose.{
  policy_answer, ask_policy, settle, propose_for, propose_block_for_incident,
}
use pondsecndr.Response.Engine.Propose.Found.{Found, find_subject-Found}
use pondsecndr.Response.Engine.Propose.Placed.{
  Admitted, Placed, settle_by-Placed, find_subject-target,
}

module _ (p : Platform) (config : PondSecConfig) where
  -- What a proposal carries of the policy.
  unfoldable pub asked : Call → (automatic : Bool) → Subject → Store → Option Decision
  asked call false subject store = none
  asked call true subject store = some (
      evaluate_automatic_response_policy p config subject.incident call.now store subject.target
        subject.protected subject.allowlisted)

  module _ (call : Call) (incident_id : String) (duration : Option ℕ) (subject : Subject)
      (store : Store) (proposal : Proposal) (full : is_empty subject.target ≡ false) where
    abbrev answer : (automatic : Bool) → Result Proposal × Store
    answer automatic = propose_for p config call incident_id duration automatic (ok subject) store

    abbrev policy : Decision
    policy =
        evaluate_automatic_response_policy p config subject.incident call.now store subject.target
          subject.protected subject.allowlisted

    -- The record that the policy leaves in the log is no block.
    Placed-audited :
        (after : Store)
        → Placed p config call subject.target
            (some policy)
            (audit_response_decision call.now incident_id "response.policy_decision" call.actor
              store)
            after
            proposal
        → Placed p config call subject.target (some policy) store after proposal
    unfolding audit_response_decision existing_response_block
    Placed-audited after h = record {
      decided = h.decided;
      is_of_target = h.is_of_target;
      is_open_block = h.is_open_block;
      stored = h.stored;
    }

    answered :
        (allowed : Bool)
        → policy.proposal_allowed ≡ allowed
        → (run
            (
              policy_answer p config policy allowed,
              audit_response_decision call.now incident_id "response.policy_decision" call.actor
                  store,
            )
            (settle p config call incident_id true duration subject)).0
          ≡ ok proposal
        → Admitted p config subject
          × (policy.proposal_allowed ≡ true)
          × Placed p config call subject.target
              (some policy)
              store
              (run
                (
                  policy_answer p config policy allowed,
                  audit_response_decision call.now incident_id "response.policy_decision" call.actor
                      store,
                )
                (settle p config call incident_id true duration subject)).1
              proposal
    unfolding policy_answer settle
    answered false e h = cc
    answered true e h =
        let (admitted, placed) =
          settle_by-Placed p config call incident_id true duration subject (some policy) _ proposal
            _ full refl h in
        (admitted, e, Placed-audited _ placed)

    propose_for-Placed :
        (automatic : Bool)
        → (answer automatic).0 ≡ ok proposal
        → Admitted p config subject
          × (automatic ≡ true → policy.proposal_allowed ≡ true)
          × Placed p config call subject.target
              (asked call automatic subject store)
              store
              (answer automatic).1
              proposal
    unfolding propose_for ask_policy settle asked
    propose_for-Placed false h =
        let (admitted, placed) =
          settle_by-Placed p config call incident_id false duration subject none store proposal _
            full refl h in
        (admitted, λ e. cc, placed)
    propose_for-Placed true h =
        let (admitted, allowed, placed) = answered policy.proposal_allowed refl h in
        (admitted, λ e. allowed, placed)

  -- What a returned proposal guarantees.
  pub record IsSafe (call : Call) (incident_id : String) (automatic : Bool) (subject : Subject)
      (before after : Store) (proposal : Proposal) : Type 0 where
    pub found : Found p config call.now incident_id before subject
    pub unprotected : is_protected_target p.ipaddress subject.target config ≡ ok false
    pub unlisted :
        config.response.enforce_allowlist ≡ true
        → is_allowlisted p.ipaddress subject.target
            (allowlist_values call.now before ++ config.response.break_glass_values)
          ≡ ok false
    pub admitted : Admitted p config subject
    pub policy :
        automatic ≡ true
        → (evaluate_automatic_response_policy p config subject.incident call.now before
            subject.target subject.protected subject.allowlisted).proposal_allowed
          ≡ true
    pub placed :
        Placed p config call subject.target
          (asked call automatic subject before)
          before
          after
          proposal

  propose_by-IsSafe :
      (call : Call) (incident_id : String) (duration : Option ℕ) (automatic : Bool) (store : Store)
      (proposal : Proposal) (r : Result Subject)
      → find_subject p config call.now incident_id store ≡ r
      → (propose_for p config call incident_id duration automatic r store).0 ≡ ok proposal
      → (subject : Subject) × (r ≡ ok subject)
        × IsSafe call incident_id automatic subject store
            (propose_for p config call incident_id duration automatic r store).1
            proposal
  unfolding propose_for
  propose_by-IsSafe call incident_id duration automatic store proposal (raise e) f h = cc
  propose_by-IsSafe call incident_id duration automatic store proposal (ok subject) f h =
      let full = find_subject-target p config call.now incident_id store subject f in
      let (admitted, policy, placed) =
        propose_for-Placed call incident_id duration subject store proposal full automatic h in
      let found = find_subject-Found p config call.now incident_id store subject f in
      (
        subject,
        refl,
        record {
          found = found;
          unprotected =
              subst (λ flag. is_protected_target p.ipaddress subject.target config ≡ ok flag)
                admitted.unprotected found.is_judged;
          unlisted = λ on.
              subst
                (λ flag.
                  is_allowlisted p.ipaddress subject.target
                    (allowlist_values call.now store ++ config.response.break_glass_values)
                  ≡ ok flag)
                admitted.unlisted (found.is_looked_up on);
          admitted = admitted;
          policy = policy;
          placed = placed;
        },
      )

  -- A proposal that is returned is for the stored incident of the id and the target chosen for it:
  -- a target that is_protected_target answers `False` for and, where the allowlist is enforced,
  -- is_allowlisted does too, asked with the entries in force and the break-glass values; with the
  -- risk and confidence that the configuration asks for, and, of an automatic call, one that the
  -- policy lets through. Its block is open and of that target; either it was in force already and
  -- the blocks are as before, or it is the one new block, where no block of the target was in force,
  -- and ends within the longest time allowed.
  pub propose_block_for_incident-IsSafe :
      (call : Call) (incident_id : String) (duration : Option ℕ) (automatic : Bool) (store : Store)
      (proposal : Proposal)
      → (propose_block_for_incident p config call incident_id duration automatic store).0
        ≡ ok proposal
      → (subject : Subject) × (find_subject p config call.now incident_id store ≡ ok subject)
        × IsSafe call incident_id automatic subject store
            (propose_block_for_incident p config call incident_id duration automatic store).1
            proposal
  unfolding propose_block_for_incident
  propose_block_for_incident-IsSafe call incident_id duration automatic store proposal h =
      propose_by-IsSafe call incident_id duration automatic store proposal _ refl h
