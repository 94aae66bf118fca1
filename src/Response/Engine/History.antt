-- ===== src/Response/Engine/History.antt =====
-- Histories of the calls of response/engine.py and of the expiry, by which a database can come about.
pub mod Growth
pub mod Limit
use pondsecndr.Prelude.{ℕ, ◌≤◌, ◌≡◌, String, Bool, false, [], Option, any}
use pondsecndr.Config.{PondSecConfig}
use pondsecndr.Storage.Blocks.{expire_block_entries}
use pondsecndr.Storage.Blocks.Ids.{has_id}
use pondsecndr.Response.Policy.{Platform}
use pondsecndr.Response.Pf.{Shell, Enforcer}
use pondsecndr.Response.Engine.{System, Call}
use pondsecndr.Response.Engine.Propose.{propose_block_for_incident, propose_manual_block}
use pondsecndr.Response.Engine.Activate.{activate_block, remove_block}

module _ (p : Platform) (config : PondSecConfig) (shell : Shell) (pf : Enforcer) where
  -- The systems that come about by calls at moments that do not go back, with the last moment. The
  -- id that a call draws is one that no row has.
  pub data Reachable : ℕ → System → Type 0 where
    start : (s : System) → s.store.blocks ≡ [] → Reachable 0 s
    propose :
        {t : ℕ} (s : System) (call : Call) (incident_id : String) (duration : Option ℕ)
        (automatic : Bool)
        → Reachable t s
        → t ≤ call.now
        → any (has_id call.fresh) s.store.blocks ≡ false
        → Reachable call.now (record s {
          store =
              (propose_block_for_incident p config call incident_id duration automatic s.store).1;
        })
    propose_manual :
        {t : ℕ} (s : System) (call : Call) (target : String) (reason : Option String)
        (duration : Option ℕ)
        → Reachable t s
        → t ≤ call.now
        → any (has_id call.fresh) s.store.blocks ≡ false
        → Reachable call.now (record s {
          store = (propose_manual_block p config call target reason duration s.store).1;
        })
    activate :
        {t : ℕ} (s : System) (call : Call) (block_id : String)
        → Reachable t s
        → t ≤ call.now
        → Reachable call.now (activate_block p config shell pf call block_id s).1
    remove :
        {t : ℕ} (s : System) (call : Call) (block_id reason : String)
        → Reachable t s
        → t ≤ call.now
        → Reachable call.now (remove_block p config shell pf call block_id reason s).1
    expire :
        {t : ℕ} (s : System) (now : ℕ) (actor : String)
        → Reachable t s
        → t ≤ now
        → Reachable now (record s { store = (expire_block_entries now actor s.store).1 })
