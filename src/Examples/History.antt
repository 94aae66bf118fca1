-- ===== src/Examples/History.antt =====
-- The theorem on histories, on a proposal that is activated.
use pondsecndr.Prelude.{◌≡◌, refl, arith, true, false, [], none, any}
use pondsecndr.Storage.Blocks.Ids.{has_id}
use pondsecndr.Response.Engine.{System}
use pondsecndr.Response.Engine.Propose.{propose_block_for_incident}
use pondsecndr.Response.Engine.Activate.{activate_block}
use pondsecndr.Response.Engine.History.{Reachable, start, propose, activate}
use pondsecndr.Response.Engine.History.Limit.{IsBounded, Reachable-IsBounded}
use pondsecndr.Samples

abbrev beginning : System
beginning = record { store = Samples.store; commands = [] }

abbrev proposal : System
proposal = record beginning {
  store =
      (propose_block_for_incident Samples.platform Samples.config Samples.call "case-1" none true
        Samples.store).1;
}

no_block : any (has_id "block-2") Samples.store.blocks ≡ false
unfolding any
no_block = refl

abbrev history :
    Reachable Samples.platform Samples.config Samples.shell Samples.enforcer Samples.now
      (activate_block Samples.platform Samples.config Samples.shell Samples.enforcer Samples.call
        "block-2" proposal).1
history =
    activate proposal Samples.call "block-2"
      (propose beginning Samples.call "case-1" none true (start beginning refl) (omega arith)
        no_block)
      (omega arith)

Reachable-IsBounded_example :
    IsBounded Samples.platform Samples.config Samples.now
      (activate_block Samples.platform Samples.config Samples.shell Samples.enforcer Samples.call
        "block-2" proposal).1
Reachable-IsBounded_example =
    Reachable-IsBounded Samples.platform Samples.config Samples.shell Samples.enforcer history
