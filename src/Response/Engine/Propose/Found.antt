-- ===== src/Response/Engine/Propose/Found.antt =====
-- What `propose_block_for_incident` of response/engine.py has looked up before it asks the policy.
use pondsecndr.Prelude.{
  ℕ, ◌≡◌, String, is_empty, List, Option, Bool, true, ◌++◌, none, some, Bool-cases, inl, inr, arith,
  subst,
}
use pondsecndr.Python.Result.{ok, >>=-eq-ok, ok-injective}
use pondsecndr.Config.{PondSecConfig}
use pondsecndr.Storage.{Incident, Store}
use pondsecndr.Storage.Allowlist.{allowlist_values}
use pondsecndr.Storage.Incidents.{get_incident}
use pondsecndr.Response.Policy.{Platform}
use pondsecndr.Response.Target.{is_protected_target, is_allowlisted, response_target_for_incident}
use pondsecndr.Response.Engine.{
  Subject, found_incident, found_target, check_allowlist, find_subject,
}

module _ (p : Platform) (config : PondSecConfig) where
  -- The incident is the stored one, the target is the one that is chosen for it, and both flags are
  -- the answers of the configuration and of the allowlist for that target.
  pub record Found (now : ℕ) (incident_id : String) (store : Store) (subject : Subject)
      : Type 0 where
    pub is_stored : get_incident incident_id store ≡ some subject.incident
    pub is_target : response_target_for_incident p subject.incident ≡ ok (some subject.target)
    pub is_judged : is_protected_target p.ipaddress subject.target config ≡ ok subject.protected
    pub is_looked_up :
        config.response.enforce_allowlist ≡ true
        → is_allowlisted p.ipaddress subject.target
            (allowlist_values now store ++ config.response.break_glass_values)
          ≡ ok subject.allowlisted

  found_incident_sound :
      (incident_id : String) (store : Store) (incident : Incident)
      → found_incident p config (get_incident incident_id store) ≡ ok incident
      → get_incident incident_id store ≡ some incident
  unfolding found_incident
  found_incident_sound incident_id store incident h = ground arith

  found_target_sound :
      (found : Option String) (target : String)
      → found_target p config found ≡ ok target
      → found ≡ some target
  unfolding found_target
  found_target_sound none target h = absurd (ground arith)
  found_target_sound (some t) target h = elim (Bool-cases (is_empty t)) [
    | inl nothing ↦ absurd (ground (arith, nothing))
    | inr full ↦ ground (arith, full)
  ]

  check_allowlist_sound :
      (target : String) (values : List String) (answer : Bool)
      → check_allowlist p config target values ≡ ok answer
      → config.response.enforce_allowlist ≡ true
      → is_allowlisted p.ipaddress target values ≡ ok answer
  unfolding check_allowlist
  check_allowlist_sound target values answer h on = ground arith

  pub find_subject-Found :
      (now : ℕ) (incident_id : String) (store : Store) (subject : Subject)
      → find_subject p config now incident_id store ≡ ok subject
      → Found now incident_id store subject
  unfolding find_subject
  find_subject-Found now incident_id store subject h =
      let (incident, stored, h1) =
        >>=-eq-ok (found_incident p config (get_incident incident_id store)) _ h in
      let (found, chosen, h2) = >>=-eq-ok (response_target_for_incident p incident) _ h1 in
      let (target, full, h3) = >>=-eq-ok (found_target p config found) _ h2 in
      let (protected, judged, h4) =
        >>=-eq-ok (is_protected_target p.ipaddress target config) _ h3 in
      let (allowlisted, listed, h5) = >>=-eq-ok (check_allowlist p config target _) _ h4 in
      subst (Found now incident_id store) (ok-injective h5) (record {
        is_stored = found_incident_sound incident_id store incident stored;
        is_target =
            subst (λ x. response_target_for_incident p incident ≡ ok x)
              (found_target_sound found target full) chosen;
        is_judged = judged;
        is_looked_up = check_allowlist_sound target _ allowlisted listed;
      })
