-- ===== src/Response/Engine/Activate/Removals.antt =====
-- What `remove_block` of response/engine.py does to the table of the packet filter.
use pondsecndr.Prelude.{
  ◌≡◌, ◌⊎◌, inl, inr, refl, sym, ◌∙◌, subst, arith, String, Bool, true, false, List, some, All,
  Option-cases,
}
use pondsecndr.Python.Result.{ok, Result-cases}
use pondsecndr.Config.{PondSecConfig}
use pondsecndr.Storage.{BlockEntry, removed}
use pondsecndr.Storage.Blocks.{set_status, get_block_entry}
use pondsecndr.Storage.Blocks.Ids.{has_id, set_status-All, blocks-update_block_status}
use pondsecndr.Storage.Blocks.Sources.{is_held, active_block_sources-removed}
use pondsecndr.Response.Policy.{Platform}
use pondsecndr.Response.Pf.{Command, Shell, Enforcer}
use pondsecndr.Response.Target.{validate_ip_or_network}
use pondsecndr.Response.Engine.{System, Call}
use pondsecndr.Response.Engine.Activate.{
  found_block, pf_op, clear_table, release_source, remove_block,
}

module _ (p : Platform) (config : PondSecConfig) (shell : Shell) (pf : Enforcer) (call : Call) where
  -- A removal that found its block.
  pub record Removed (block_id reason source_ip : String) (before after : System) : Type 0 where
    -- No row with the id stays in force.
    pub no_longer_open : All (λ b. has_id block_id b ≡ true → b.status ≡ removed) after.store.blocks
    pub rows : after.store.blocks ≡ set_status block_id removed (some reason) before.store.blocks
    -- The address leaves the table unless another block in force holds it.
    pub kept :
        is_held call.now block_id source_ip before.store.blocks ≡ true
        → after.commands ≡ before.commands
    pub cleared :
        is_held call.now block_id source_ip before.store.blocks ≡ false
        → after.commands ≡ (pf_op p config shell pf "delete" source_ip before.commands).1

  clear_table-kept :
      (still_active : Bool) (source_ip : String) (ran : List Command)
      → still_active ≡ true
      → (clear_table p config shell pf still_active source_ip ran).1 ≡ ran
  unfolding clear_table
  clear_table-kept true source_ip ran h = refl
  clear_table-kept false source_ip ran h = absurd (ground arith)

  clear_table-cleared :
      (still_active : Bool) (source_ip : String) (ran : List Command)
      → still_active ≡ false
      → (clear_table p config shell pf still_active source_ip ran).1
        ≡ (pf_op p config shell pf "delete" source_ip ran).1
  unfolding clear_table
  clear_table-cleared true source_ip ran h = absurd (ground arith)
  clear_table-cleared false source_ip ran h = refl

  release_source-Removed :
      (block_id reason source_ip : String) (s : System)
      → Removed block_id reason source_ip s
          (release_source p config shell pf call block_id reason source_ip s).1
  unfolding release_source
  release_source-Removed block_id reason source_ip s =
      let rows =
        blocks-update_block_status call.now block_id removed (some reason) call.actor s.store in
      let held =
        active_block_sources-removed call.now block_id source_ip (some reason) call.actor s.store in
      record {
        no_longer_open =
            subst (All (λ b. has_id block_id b ≡ true → b.status ≡ removed)) (sym rows)
              (set_status-All block_id removed (some reason) s.store.blocks);
        rows = rows;
        kept = λ h. clear_table-kept _ source_ip s.commands (held ∙ h);
        cleared = λ h. clear_table-cleared _ source_ip s.commands (held ∙ h);
      }

  -- A removal leaves the system as it was, or it is of a stored block with a valid address: its row
  -- is removed, and the address is taken out of the table unless another block in force holds it.
  pub remove_block-Removed :
      (block_id reason : String) (s : System)
      → ((remove_block p config shell pf call block_id reason s).1 ≡ s)
        ⊎ ((block : BlockEntry) × (source_ip : String) × (get_block_entry block_id s.store
              ≡ some block)
            × (validate_ip_or_network p.ipaddress block.source_ip ≡ ok source_ip)
            × Removed block_id reason source_ip s
                (remove_block p config shell pf call block_id reason s).1)
  unfolding remove_block found_block
  remove_block-Removed block_id reason s = elim (Option-cases (get_block_entry block_id s.store)) [
    | inl missing ↦ inl (rw (remove_block, missing) refl)
    | inr (block, found) ↦
        elim (Result-cases (validate_ip_or_network p.ipaddress block.source_ip)) [
          | inr (e, invalid) ↦ inl (rw (remove_block, found, invalid) refl)
          | inl (source_ip, valid) ↦ inr (
            block,
            source_ip,
            found,
            valid,
            rw (remove_block, found, valid) (release_source-Removed block_id reason source_ip s),
          )
        ]
  ]
