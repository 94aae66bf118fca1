-- ===== src/Response/Engine/History/Limit.antt =====
-- What holds of the blocks of response/engine.py after any history of calls: unique ids, and no more
-- blocks in force than the configuration allows.
use pondsecndr.Prelude.{
  ℕ, ◌≤◌, ◌≡◌, inl, inr, sym, ap, subst, ◌∙◌, arith, String, false, none, some, any, count_if,
}
use pondsecndr.Config.{PondSecConfig}
use pondsecndr.Storage.{active, removed}
use pondsecndr.Storage.Blocks.{is_active_at, active_block_count, expire_block_entries}
use pondsecndr.Storage.Blocks.Ids.{
  has_id, UniqueIds, set_status-UniqueIds, blocks-update_block_status,
}
use pondsecndr.Storage.Blocks.Expiry.{
  expire_block_entries-blocks, expire_block_entries_complete, expire_due-UniqueIds,
}
use pondsecndr.Response.Policy.{Platform}
use pondsecndr.Response.Pf.{Shell, Enforcer}
use pondsecndr.Response.Engine.{System, Call}
use pondsecndr.Response.Engine.Activate.{activate_block, remove_block}
use pondsecndr.Response.Engine.Activate.Guards.{
  Activated, refused, add_failed, added, activate_block-Activated, activate_block-max_concurrent,
}
use pondsecndr.Response.Engine.Activate.Removals.{remove_block-Removed}
use pondsecndr.Response.Engine.History.{
  Reachable, start, propose, propose_manual, activate, remove, expire,
}
use pondsecndr.Response.Engine.History.Growth.{
  Grows, active_mono, Grows-UniqueIds, Grows-count, count-removed, propose_block_for_incident-Grows,
  manual-Grows,
}

module _ (p : Platform) (config : PondSecConfig) where
  -- The ids are unique, and no more blocks are in force than allowed.
  pub record IsBounded (t : ℕ) (s : System) : Type 0 where
    pub unique : UniqueIds s.store.blocks
    pub limited : active_block_count t s.store ≤ config.response.max_concurrent_blocks

  Grows-IsBounded :
      (t now : ℕ) (fresh : String) (s after : System)
      → t ≤ now
      → any (has_id fresh) s.store.blocks ≡ false
      → Grows fresh s.store.blocks after.store.blocks
      → IsBounded t s
      → IsBounded now after
  unfolding active_block_count
  Grows-IsBounded t now fresh s after later free g h = record {
    unique = Grows-UniqueIds fresh s.store.blocks after.store.blocks free h.unique g;
    limited = omega (
      arith,
      h.limited,
      Grows-count now fresh s.store.blocks after.store.blocks g,
      active_mono t now s.store.blocks later,
    );
  }

  -- The bound at one moment is the bound later, as long as nothing happens.
  wait-IsBounded : (t now : ℕ) (s : System) → t ≤ now → IsBounded t s → IsBounded now s
  unfolding active_block_count
  wait-IsBounded t now s later h = record {
    unique = h.unique;
    limited = omega (arith, h.limited, active_mono t now s.store.blocks later);
  }

  module _ (shell : Shell) (pf : Enforcer) where
    Activated-UniqueIds :
        (call : Call) (block_id : String) (s after : System)
        → UniqueIds s.store.blocks
        → Activated p config call shell pf block_id s after
        → UniqueIds after.store.blocks
    Activated-UniqueIds call block_id s _ u refused = u
    Activated-UniqueIds call block_id s _ u (add_failed source_ip a after kept ran) = rw kept u
    Activated-UniqueIds call block_id s _ u (added source_ip a result r good after store) =
        subst UniqueIds
          (sym (
            ap (λ x. x.blocks) store
            ∙ blocks-update_block_status call.now block_id active none call.actor s.store))
          (set_status-UniqueIds block_id active none s.store.blocks u)

    activate-IsBounded :
        (call : Call) (block_id : String) (s : System)
        → IsBounded call.now s
        → IsBounded call.now (activate_block p config shell pf call block_id s).1
    activate-IsBounded call block_id s h = record {
      unique =
          Activated-UniqueIds call block_id s _ h.unique
            (activate_block-Activated p config call shell pf block_id s);
      limited = activate_block-max_concurrent p config call shell pf block_id s h.unique h.limited;
    }

    remove-IsBounded :
        (call : Call) (block_id reason : String) (s : System)
        → IsBounded call.now s
        → IsBounded call.now (remove_block p config shell pf call block_id reason s).1
    unfolding active_block_count
    remove-IsBounded call block_id reason s h =
        elim (remove_block-Removed p config shell pf call block_id reason s) [
          | inl kept ↦ subst (IsBounded call.now) (sym kept) h
          | inr (block, source_ip, found, valid, gone) ↦ record {
            unique =
                subst UniqueIds (sym gone.rows)
                  (set_status-UniqueIds block_id removed (some reason) s.store.blocks h.unique);
            limited = omega (
              arith,
              h.limited,
              ap (count_if (is_active_at call.now)) gone.rows,
              count-removed call.now block_id (some reason) s.store.blocks,
            );
          }
        ]

    expire-IsBounded :
        (now : ℕ) (actor : String) (s : System)
        → IsBounded now s
        → IsBounded now (record s { store = (expire_block_entries now actor s.store).1 })
    expire-IsBounded now actor s h = record {
      unique =
          subst UniqueIds (sym (expire_block_entries-blocks now actor s.store h.unique))
            (expire_due-UniqueIds now s.store.blocks h.unique);
      limited =
          omega (arith, h.limited, (expire_block_entries_complete now actor s.store h.unique).1);
    }

    -- After any history of proposals, activations, removals and expiries that begins without blocks,
    -- the ids are unique and no more blocks are in force than the configuration allows.
    pub Reachable-IsBounded : {t : ℕ} {s : System} → Reachable p config shell pf t s → IsBounded t s
    unfolding active_block_count count_if UniqueIds
    Reachable-IsBounded (start s empty) = record {
      unique = subst UniqueIds (sym empty) tt;
      limited = omega (arith, ap (count_if (is_active_at 0)) empty);
    }
    Reachable-IsBounded (propose {t = t} s call incident_id duration automatic history later free) =
        Grows-IsBounded t call.now call.fresh s _ later free
          (propose_block_for_incident-Grows p config call incident_id automatic duration s.store)
          (Reachable-IsBounded history)
    Reachable-IsBounded (propose_manual {t = t} s call target reason duration history later free) =
        Grows-IsBounded t call.now call.fresh s _ later free
          (manual-Grows p config call target reason duration s.store) (Reachable-IsBounded history)
    Reachable-IsBounded (activate {t = t} s call block_id history later) =
        activate-IsBounded call block_id s
          (wait-IsBounded t call.now s later (Reachable-IsBounded history))
    Reachable-IsBounded (remove {t = t} s call block_id reason history later) =
        remove-IsBounded call block_id reason s
          (wait-IsBounded t call.now s later (Reachable-IsBounded history))
    Reachable-IsBounded (expire {t = t} s now actor history later) =
        expire-IsBounded now actor s (wait-IsBounded t now s later (Reachable-IsBounded history))
