-- ===== src/Response/Engine.antt =====
-- The second half of response/engine.py: proposing, activating and removing blocks. One call reads
-- the clock as one moment, `now`, and draws at most one fresh id.
pub mod Propose
pub mod Activate
pub mod History
use Prim.Native.String.{◌++◌ as concat}
use pondsecndr.Prelude.{
  ℕ, zero, suc, ◌+◌, String, Bool, false, not, List, [], ◌∷◌, ◌++◌, Option, none, some, is_empty,
  if◌then◌else◌,
}
use pondsecndr.Python.Result.{◌>>=◌, ◌>>◌, Result, ok, raise, response_denied, deny}
use pondsecndr.Config.{PondSecConfig}
use pondsecndr.Storage.{BlockEntry, Incident, Store}
use pondsecndr.Storage.Allowlist.{allowlist_values}
use pondsecndr.Storage.Incidents.{get_incident}
use pondsecndr.Response.Policy.{Platform, Decision}
use pondsecndr.Response.Pf.{Command, PfResult, succeeded}
use pondsecndr.Response.Target.{
  validate_ip_or_network, is_protected_target, is_allowlisted, response_target_for_incident,
}

-- The database, and the commands that were run on the packet filter.
pub record System : Type 0 where
  pub store : Store
  pub commands : List Command

-- One call: who makes it, when, and the id that `uuid4` would give.
pub record Call : Type 0 where
  pub now : ℕ
  pub fresh : String
  pub actor : String

pub record Proposal : Type 0 where
  pub block : BlockEntry
  pub policy_decision : Option Decision

-- What the function learns before it asks the policy.
pub record Subject : Type 0 where
  pub incident : Incident
  pub target : String
  pub protected : Bool
  pub allowlisted : Bool

pub record Activation : Type 0 where
  pub succeeded : Bool
  pub block_id : String
  pub source_ip : String
  pub pf_add : PfResult
  pub pf_verify : PfResult
  pub pf_rule_present : Bool

pub record Removal : Type 0 where
  pub changed : Bool
  pub block_id : String
  pub source_ip : String
  pub pf_removed : Option PfResult
  pub kept_for_other_active_blocks : Bool

-- `"; ".join(reasons)`
unfoldable pub join : List String → String
join [] = ""
join (r ∷ []) = r
join (r ∷ rs) = concat r (concat "; " (join rs))

-- `duration_seconds or default`
unfoldable pub duration_or : Option ℕ → ℕ → ℕ
duration_or none default = default
duration_or (some zero) default = default
duration_or (some (suc n)) default = suc n

module _ (p : Platform) (config : PondSecConfig) where
  unfoldable pub found_incident : Option Incident → Result Incident
  found_incident none = raise (response_denied "incident not found")
  found_incident (some incident) = ok incident

  unfoldable pub found_target : Option String → Result String
  found_target none = raise (response_denied "incident has no response target")
  found_target (some target) =
      if is_empty target
      then raise (response_denied "incident has no response target")
      else ok target

  unfoldable pub check_allowlist : (target : String) (values : List String) → Result Bool
  check_allowlist target values =
      if config.response.enforce_allowlist
      then is_allowlisted p.ipaddress target values
      else ok false

  unfoldable pub find_subject : (now : ℕ) (incident_id : String) → Store → Result Subject
  find_subject now incident_id store = do
    incident ← found_incident (get_incident incident_id store)
    found ← response_target_for_incident p incident
    target ← found_target found
    protected ← is_protected_target p.ipaddress target config
    allowlisted ←
        check_allowlist target (allowlist_values now store ++ config.response.break_glass_values)
    ok (record {
      incident = incident;
      target = target;
      protected = protected;
      allowlisted = allowlisted;
    })

  -- The tests of `propose_manual_block`, and of `activate_block`, on a text for an address.
  unfoldable pub check_source : (now : ℕ) (source : String) → Store → Result String
  check_source now source store = do
    source_ip ← validate_ip_or_network p.ipaddress source
    protected ← is_protected_target p.ipaddress source_ip config
    deny protected (response_denied "source IP is protected")
    allowlisted ← check_allowlist source_ip (allowlist_values now store)
    deny allowlisted (response_denied "source IP is allowlisted")
    ok source_ip
