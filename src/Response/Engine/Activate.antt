-- ===== src/Response/Engine/Activate.antt =====
-- `activate_block`, `remove_block` and `release_incident_response` of response/engine.py.
pub mod Guards
pub mod Removals
use pondsecndr.Prelude.{
  not, is_empty, String, Bool, true, false, not, ◌&&◌, List, [], ◌∷◌, Option, none, some, leb,
  is_in, if◌then◌else◌,
}
use Prim.Native.String.{◌++◌ as concat}
use pondsecndr.Python.Value.{int}
use pondsecndr.Python.Result.{
  Result, ok, raise, response_denied, ◌>>=◌, ◌>>◌, deny, Action, and_then, run,
}
use pondsecndr.Config.{PondSecConfig}
use pondsecndr.Storage.{BlockEntry, active, removed, Store}
use pondsecndr.Storage.Blocks.{
  get_block_entry, active_block_count, active_block_sources, active_response_blocks_for_incident,
  update_block_status,
}
use pondsecndr.Response.Policy.{Platform}
use pondsecndr.Response.Pf.{Command, Shell, Enforcer, PfResult, succeeded, table_op, rule_present}
use pondsecndr.Response.Target.{validate_ip_or_network}
use pondsecndr.Response.Engine.{System, Call, Activation, Removal, check_source}

module _ (p : Platform) (config : PondSecConfig) where
  unfoldable pub found_block : Option BlockEntry → Result BlockEntry
  found_block none = raise (response_denied "block entry not found")
  found_block (some block) = ok block

  unfoldable pub check_activation : Call → (block_id : String) → Store → Result String
  check_activation call block_id store = do
    block ← found_block (get_block_entry block_id store)
    source_ip ← check_source p config call.now block.source_ip store
    deny (leb config.response.max_concurrent_blocks (active_block_count call.now store))
        (response_denied "maximum concurrent blocks reached")
    ok source_ip

  module _ (shell : Shell) (pf : Enforcer) where
    unfoldable pub pf_op : (operation target : String) → Action (List Command) PfResult
    pf_op = table_op p.floats p.texts shell pf

    -- After a successful `pf.add`: the status, then the two questions to the packet filter.
    unfoldable pub record_activation :
        Call → (block_id source_ip : String) (added : PfResult) → Action System Activation
    record_activation call block_id source_ip added s =
        let (changed, store) =
          update_block_status call.now block_id active none call.actor s.store in
        let (verified, tested) = pf_op "test" source_ip s.commands in
        elim verified [
          | raise e ↦ (raise e, record { store = store; commands = tested })
          | ok result ↦
              (let (present, asked) = rule_present p.floats p.texts shell pf tested in
                (
                  ok (record {
                    succeeded = changed && succeeded result;
                    block_id = block_id;
                    source_ip = source_ip;
                    pf_add = added;
                    pf_verify = result;
                    pf_rule_present = present;
                  }),
                  record { store = store; commands = asked },
                ))
        ]

    -- `result.stderr or result.stdout or result.returncode`, after the words that name the failure.
    unfoldable pub add_failure : PfResult → String
    add_failure result = concat "PF table add failed: " (
        if not (is_empty result.stderr)
        then result.stderr
        else if not (is_empty result.stdout)
        then result.stdout
        else p.texts.repr (int result.returncode))

    unfoldable pub after_add :
        Call → (block_id source_ip : String) → PfResult → Action System Activation
    after_add call block_id source_ip added s =
        if succeeded added
        then record_activation call block_id source_ip added s
        else (raise (response_denied (add_failure added)), s)

    unfoldable pub activate_block : Call → (block_id : String) → Action System Activation
    activate_block call block_id s = elim (check_activation call block_id s.store) [
      | raise e ↦ (raise e, s)
      | ok source_ip ↦
          (let (added, ran) = pf_op "add" source_ip s.commands in
            and_then added (after_add call block_id source_ip)
              (record { store = s.store; commands = ran }))
    ]

    -- The table entry stays while another active block has the same source.
    unfoldable pub clear_table :
        (still_active : Bool) (source_ip : String) → Action (List Command) (Option PfResult)
    clear_table true source_ip ran = (ok none, ran)
    clear_table false source_ip ran =
        let (deleted, after) = pf_op "delete" source_ip ran in
        (deleted >>= λ result. ok (some result), after)

    unfoldable pub release_source :
        Call → (block_id reason source_ip : String) → Action System Removal
    release_source call block_id reason source_ip s =
        let (changed, store) =
          update_block_status call.now block_id removed (some reason) call.actor s.store in
        let still_active = is_in source_ip (active_block_sources call.now store) in
        let (cleared, ran) = clear_table still_active source_ip s.commands in
        (
          cleared >>= λ result. ok (record {
            changed = changed;
            block_id = block_id;
            source_ip = source_ip;
            pf_removed = result;
            kept_for_other_active_blocks = still_active;
          }),
          record { store = store; commands = ran },
        )

    unfoldable pub remove_block : Call → (block_id reason : String) → Action System Removal
    remove_block call block_id reason s =
        elim (found_block (get_block_entry block_id s.store) >>= λ block.
        validate_ip_or_network p.ipaddress block.source_ip) [
          | raise e ↦ (raise e, s)
          | ok source_ip ↦ release_source call block_id reason source_ip s
        ]

    unfoldable pub remove_all :
        Call → (reason : String) → List BlockEntry → Action System (List Removal)
    remove_all call reason [] s = (ok [], s)
    remove_all call reason (block ∷ blocks) s =
        run (remove_block call block.block_id reason s) λ removal after.
          let (rest, last) = remove_all call reason blocks after in
          (rest >>= λ removals. ok (removal ∷ removals), last)

    -- The result is empty for "not_found"; a release is partial if some row was not changed.
    unfoldable pub release_incident_response :
        Call → (incident_id reason : String) → Action System (List Removal)
    release_incident_response call incident_id reason s =
        remove_all call reason (active_response_blocks_for_incident call.now incident_id s.store) s
