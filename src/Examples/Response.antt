-- ===== src/Examples/Response.antt =====
-- The theorems on the response package, on samples.
use pondsecndr.Prelude.{
  ◌≤◌, ◌+◌, ◌≡◌, ◌↔◌, ◌⊎◌, refl, arith, true, false, none, some, String, str_eq, any, count_if,
  contains, starts_with, lower, is_in, meets, is_subset, keep, first, ◌*◌,
}
use pondsecndr.Python.Result.{ok}
use pondsecndr.Python.Ipaddress.{is_private_ip, subnet_of, overlaps}
use pondsecndr.Python.Value.{
  get, truthy, text, text_or, float_or_zero, int_or_zero, dicts, as_list, as_dict,
}
use pondsecndr.Config.Learning.{learning_status}
use pondsecndr.Storage.{BlockEntry, audit, audit_response_decision, host_baseline_observations}
use pondsecndr.Storage.Allowlist.{allowlist_values}
use pondsecndr.Storage.Incidents.{get_incident}
use pondsecndr.Storage.Blocks.{
  active_block_count, get_block_entry, add_block_entry, existing_response_block, latest,
}
use pondsecndr.Response.Evidence.{evidence_summary, detections_of}
use pondsecndr.Response.Policy.{enforce, evaluate_automatic_response_policy}
use pondsecndr.Response.Policy.Eligibility.{Guarded, Proposable, decision-enforce_iff}
use pondsecndr.Response.Target.{
  validate_ip_or_network, is_protected_target, is_allowlisted, any_allowed, read_networks, touches,
  protected_networks, response_target_for_incident,
}
use pondsecndr.Response.Engine.{
  Subject, Proposal, find_subject, duration_or, found_incident, found_target, check_allowlist,
}
use pondsecndr.Response.Engine.Propose.{
  propose_block_for_incident, propose_for, ask_policy, admit, settle, settle_by, place, place_by,
  new_entry, block_seconds, response_reason, policy_answer,
}
use pondsecndr.Response.Engine.Propose.Safety.{IsSafe, propose_block_for_incident-IsSafe}
use pondsecndr.Response.Engine.Activate.{activate_block, remove_block}
use pondsecndr.Response.Engine.Activate.Guards.{Activated, activate_block-Activated}
use pondsecndr.Response.Engine.Activate.Removals.{Removed, remove_block-Removed}
use pondsecndr.Samples

decision-enforce_iff_example :
    ((evaluate_automatic_response_policy Samples.platform Samples.config Samples.incident
        Samples.now Samples.store Samples.external_host false false).status
      ≡ enforce)
    ↔ ((str_eq Samples.config.response.mode "enforce" ≡ true)
        × Guarded Samples.platform Samples.config Samples.incident false false
            (learning_status Samples.platform.parse_datetime Samples.detection Samples.now)
        × Proposable Samples.platform Samples.config Samples.incident Samples.now Samples.store
            Samples.external_host
            (evidence_summary Samples.floats Samples.texts Samples.incident Samples.config)
            (learning_status Samples.platform.parse_datetime Samples.detection Samples.now)
            (is_private_ip Samples.ipaddress Samples.external_host)
        × (is_private_ip Samples.ipaddress Samples.external_host ≡ true
            → Samples.config.response.ai_full_decision_mode ≡ true))
decision-enforce_iff_example =
    decision-enforce_iff Samples.platform Samples.config Samples.incident Samples.now Samples.store
      Samples.external_host false false

activate_block-Activated_example :
    Activated Samples.platform Samples.config Samples.call Samples.shell Samples.enforcer "block-1"
      Samples.system
      (activate_block Samples.platform Samples.config Samples.shell Samples.enforcer Samples.call
        "block-1" Samples.system).1
activate_block-Activated_example =
    activate_block-Activated Samples.platform Samples.config Samples.call Samples.shell
      Samples.enforcer "block-1" Samples.system

few_active :
    active_block_count Samples.now Samples.blocked_store
    ≤ Samples.config.response.max_concurrent_blocks
unfolding active_block_count count_if
few_active = omega arith

remove_block-Removed_example :
    ((remove_block Samples.platform Samples.config Samples.shell Samples.enforcer Samples.call
        "block-1" "manual" Samples.system).1
      ≡ Samples.system)
    ⊎ ((block : BlockEntry) × (source_ip : String) × (get_block_entry "block-1"
            Samples.blocked_store
          ≡ some block)
        × (validate_ip_or_network Samples.ipaddress block.source_ip ≡ ok source_ip)
        × Removed Samples.platform Samples.config Samples.shell Samples.enforcer Samples.call
            "block-1" "manual" source_ip Samples.system
            (remove_block Samples.platform Samples.config Samples.shell Samples.enforcer
              Samples.call "block-1" "manual" Samples.system).1)
remove_block-Removed_example =
    remove_block-Removed Samples.platform Samples.config Samples.shell Samples.enforcer Samples.call
      "block-1" "manual" Samples.system

-- The functions that a proposal runs through.
program : Unit {0}
unfolding contains starts_with lower is_in meets is_subset any keep first is_private_ip get truthy
    text text_or float_or_zero int_or_zero dicts as_list as_dict detections_of learning_status
    evidence_summary evaluate_automatic_response_policy find_subject response_target_for_incident
    validate_ip_or_network is_protected_target is_allowlisted any_allowed read_networks touches
    allowlist_values get_incident propose_block_for_incident propose_for ask_policy admit settle
    settle_by place place_by new_entry block_seconds duration_or response_reason add_block_entry
    audit audit_response_decision existing_response_block latest host_baseline_observations
    policy_answer found_incident found_target check_allowlist subnet_of overlaps protected_networks
program = tt

external_proposal : Proposal
unfolding program
external_proposal = record {
  block = record Samples.block {
    block_id = "block-2";
    created_at = Samples.now;
    expires_at = Samples.now + 900 * 1000000;
    destination = some Samples.internal_host;
  };
  policy_decision = some (
      evaluate_automatic_response_policy Samples.platform Samples.config Samples.incident
        Samples.now Samples.store Samples.external_host false false);
}

external_is_proposed :
    (propose_block_for_incident Samples.platform Samples.config Samples.call "case-1" none true
      Samples.store).0
    ≡ ok external_proposal
unfolding program external_proposal pondsecndr.Response.Target.private_source
    pondsecndr.Response.Target.internal_behavior_actor pondsecndr.Response.Target.collect_actors
    pondsecndr.Response.Target.after_actor pondsecndr.Response.Target.source_of
    pondsecndr.Response.Target.best pondsecndr.Response.Target.fallback_target
    pondsecndr.Response.Target.printed pondsecndr.Response.Target.or_value_error
    pondsecndr.Response.Target.candidate_text pondsecndr.Response.Target.range
    pondsecndr.Response.Target.is_true pondsecndr.Response.Policy.below_confidence
    pondsecndr.Response.Target.networks_of pondsecndr.Response.Target.hosts_of
external_is_proposed = refl

propose_block_for_incident-IsSafe_example :
    (subject : Subject) × (find_subject Samples.platform Samples.config Samples.now "case-1"
        Samples.store
      ≡ ok subject)
    × IsSafe Samples.platform Samples.config Samples.call "case-1" true subject Samples.store
        (propose_block_for_incident Samples.platform Samples.config Samples.call "case-1" none true
          Samples.store).1
        external_proposal
propose_block_for_incident-IsSafe_example =
    propose_block_for_incident-IsSafe Samples.platform Samples.config Samples.call "case-1" none
      true Samples.store external_proposal external_is_proposed
