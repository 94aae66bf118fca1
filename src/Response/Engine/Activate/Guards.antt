-- ===== src/Response/Engine/Activate/Guards.antt =====
-- What `activate_block` of response/engine.py tests before it touches the packet filter.
use pondsecndr.Prelude.{
  ◌≤◌, ◌<◌, ◌≡◌, inl, inr, refl, arith, String, true, false, none, some, leb, Bool-cases,
  Option-cases,
}
use pondsecndr.Python.Result.{
  Result, ok, raise, response_denied, Result-cases, ◌>>=◌, ◌>>◌, deny, and_then,
}
use pondsecndr.Config.{PondSecConfig}
use pondsecndr.Storage.{BlockEntry, active, Store}
use pondsecndr.Storage.Blocks.{get_block_entry, active_block_count, update_block_status}
use pondsecndr.Storage.Blocks.Ids.{UniqueIds, active_block_count-update}
use pondsecndr.Storage.Allowlist.{allowlist_values}
use pondsecndr.Response.Policy.{Platform}
use pondsecndr.Response.Pf.{Shell, Enforcer, PfResult, succeeded}
use pondsecndr.Response.Target.{validate_ip_or_network, is_protected_target}
use pondsecndr.Response.Engine.{System, Call, check_source, check_allowlist}
use pondsecndr.Response.Engine.Activate.{
  found_block, check_activation, activate_block, after_add, record_activation, pf_op,
}

module _ (p : Platform) (config : PondSecConfig) (call : Call) where
  -- What the checks have established of a block and the address that it names.
  pub record Activable (block_id : String) (store : Store) (source_ip : String) : Type 0 where
    pub block : BlockEntry
    pub is_stored : get_block_entry block_id store ≡ some block
    pub is_read : validate_ip_or_network p.ipaddress block.source_ip ≡ ok source_ip
    pub unprotected : is_protected_target p.ipaddress source_ip config ≡ ok false
    pub unlisted : check_allowlist p config source_ip (allowlist_values call.now store) ≡ ok false
    pub has_room : active_block_count call.now store < config.response.max_concurrent_blocks

  check_source_sound :
      (source : String) (store : Store) (source_ip : String)
      → check_source p config call.now source store ≡ ok source_ip
      → (validate_ip_or_network p.ipaddress source ≡ ok source_ip)
        × (is_protected_target p.ipaddress source_ip config ≡ ok false)
        × (check_allowlist p config source_ip (allowlist_values call.now store) ≡ ok false)
  unfolding check_source
  check_source_sound source store source_ip h = ground arith

  passed_checks :
      (block : BlockEntry) (store : Store) (source_ip : String)
      → (do
        source ← check_source p config call.now block.source_ip store
        deny
            (leb config.response.max_concurrent_blocks (active_block_count call.now store))
            (response_denied "maximum concurrent blocks reached")
        ok source)
        ≡ ok source_ip
      → (check_source p config call.now block.source_ip store ≡ ok source_ip)
        × (active_block_count call.now store < config.response.max_concurrent_blocks)
  passed_checks block store source_ip h = ground arith

  check_activation-Activable :
      (block_id : String) (store : Store) (source_ip : String)
      → check_activation p config call block_id store ≡ ok source_ip
      → Activable block_id store source_ip
  unfolding check_activation found_block
  check_activation-Activable block_id store source_ip h =
      elim (Option-cases (get_block_entry block_id store)) [
        | inl missing ↦ absurd (ground (arith, missing))
        | inr (block, found) ↦
            let passed = passed_checks block store source_ip (ground (arith, found)) in
            let (read, unprotected, unlisted) =
              check_source_sound block.source_ip store source_ip passed.0 in
            record {
              block = block;
              is_stored = found;
              is_read = read;
              unprotected = unprotected;
              unlisted = unlisted;
              has_room = passed.1;
            }
      ]

  module _ (shell : Shell) (pf : Enforcer) where
    -- The system after a call that answered: as it was, or of an activable block, whose address was
    -- handed to the packet filter, and whose row became active only if that succeeded.
    pub data Activated (block_id : String) (s : System) : System → Type 0 where
      refused : Activated block_id s s
      add_failed :
          (source_ip : String)
          → Activable block_id s.store source_ip
          → (after : System) → after.store ≡ s.store
          → after.commands ≡ (pf_op p config shell pf "add" source_ip s.commands).1
          → Activated block_id s after
      added :
          (source_ip : String)
          → Activable block_id s.store source_ip
          → (result : PfResult) → (pf_op p config shell pf "add" source_ip s.commands).0 ≡ ok result
          → succeeded result ≡ true
          → (after : System)
          → after.store ≡ (update_block_status call.now block_id active none call.actor s.store).1
          → Activated block_id s after

    record_activation-store :
        (block_id source_ip : String) (result : PfResult) (s : System)
        → (record_activation p config shell pf call block_id source_ip result s).1.store
          ≡ (update_block_status call.now block_id active none call.actor s.store).1
    unfolding record_activation
    record_activation-store block_id source_ip result s =
        elim (Result-cases (pf_op p config shell pf "test" source_ip s.commands).0) [
          | inl (verified, tested) ↦ rw (record_activation, tested) refl
          | inr (e, failed) ↦ rw (record_activation, failed) refl
        ]

    after_add-Activated :
        (block_id source_ip : String) (s : System)
        → Activable block_id s.store source_ip
        → (r : Result PfResult) → (pf_op p config shell pf "add" source_ip s.commands).0 ≡ r
        → Activated block_id s
            (and_then r (after_add p config shell pf call block_id source_ip) (record {
              store = s.store;
              commands = (pf_op p config shell pf "add" source_ip s.commands).1;
            })).1
    unfolding after_add
    after_add-Activated block_id source_ip s h (raise e) r = add_failed source_ip h _ refl refl
    after_add-Activated block_id source_ip s h (ok result) r =
        elim (Bool-cases (succeeded result)) [
          | inl good ↦ rw good (
              added source_ip h result r good _
                (record_activation-store block_id source_ip result _))
          | inr bad ↦ rw bad (add_failed source_ip h _ refl refl)
        ]

    within_limit :
        (block_id : String) (s : System)
        → UniqueIds s.store.blocks
        → active_block_count call.now s.store ≤ config.response.max_concurrent_blocks
        → (after : System) → Activated block_id s after
        → active_block_count call.now after.store ≤ config.response.max_concurrent_blocks
    within_limit block_id s u h _ refused = h
    within_limit block_id s u h _ (add_failed source_ip a after same ran) = rw same h
    within_limit block_id s u h _ (added source_ip a result r good after store) = rw store (
        omega (
          arith,
          a.has_room,
          active_block_count-update call.now block_id active none call.actor s.store u,
        ))

    -- An activation leaves the system as it was, or it is of a stored block whose address is valid,
    -- neither protected nor allowed, while there is room for one more active block; the packet
    -- filter was then asked to add that address, and the row is active only if that succeeded.
    pub activate_block-Activated :
        (block_id : String) (s : System)
        → Activated block_id s (activate_block p config shell pf call block_id s).1
    unfolding activate_block
    activate_block-Activated block_id s =
        elim (Result-cases (check_activation p config call block_id s.store)) [
          | inl (source_ip, passed) ↦
              rw (activate_block, passed)
                (after_add-Activated block_id source_ip s
                  (check_activation-Activable block_id s.store source_ip passed) _ refl)
          | inr (e, failed) ↦ rw (activate_block, failed) refused
        ]

    -- No activation exceeds the limit of concurrent blocks.
    pub activate_block-max_concurrent :
        (block_id : String) (s : System)
        → UniqueIds s.store.blocks
        → active_block_count call.now s.store ≤ config.response.max_concurrent_blocks
        → active_block_count call.now (activate_block p config shell pf call block_id s).1.store
          ≤ config.response.max_concurrent_blocks
    activate_block-max_concurrent block_id s u h =
        within_limit block_id s u h _ (activate_block-Activated block_id s)
