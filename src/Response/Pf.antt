-- ===== src/Response/Pf.antt =====
-- response/pf.py: the PF table behind `pfctl`, with configctl as the fallback. The commands that
-- were run are the state; what the next command answers may depend on all of them.
pub mod Fallback
use Prim.Native.String.{◌++◌ as concat}
use pondsecndr.Prelude.{
  zero, String, Bool, true, false, not, ◌&&◌, ◌||◌, List, [], ◌∷◌, ◌++◌, Option, some, is_empty,
  contains, lower, strip, if◌then◌else◌,
}
use pondsecndr.Prelude.Int.{ℤ, pos}
use pondsecndr.Python.Float.{Floats}
use pondsecndr.Python.Value.{Value, null, obj, Fields, Texts, get, text_or, truthy, int_or_zero}
use pondsecndr.Python.Result.{Result, ok, ◌>>=◌, Action}

abbrev pub Command : Type 0
Command = List String

pub data Outcome : Type 0 where
  os_error : String → Outcome
  completed : (returncode : ℤ) (stdout stderr : String) → Outcome

-- The operating system: `runner`, `json.loads`, and whether the environment switches configctl off.
pub record Shell : Type 0 where
  pub runner : List Command → Command → Outcome
  pub json_loads : String → Option Value
  pub skip_configctl : Bool

pub record PfResult : Type 0 where
  pub table : String
  pub target : String
  pub command : String
  pub returncode : ℤ
  pub stdout : String
  pub stderr : String

abbrev pub is_zero : ℤ → Bool
is_zero (pos zero) = true
is_zero _ = false

-- `PFResult.ok`
abbrev pub succeeded : PfResult → Bool
succeeded r = is_zero r.returncode

pub record Enforcer : Type 0 where
  pub table : String
  pub allow_configctl : Bool

unfoldable pub configctl_returncode : ℤ → String → ℤ
configctl_returncode returncode stdout =
    if not (is_zero returncode)
    then returncode
    else if contains (lower stdout) "execute error"
    then pos 1
    else returncode

module _ (floats : Floats) (texts : Texts) (shell : Shell) (pf : Enforcer) where
  unfoldable pub should_fallback : (stdout stderr : String) → Bool
  should_fallback stdout stderr =
      if not pf.allow_configctl || shell.skip_configctl
      then false
      else (let output = lower (concat stdout (concat "\n" stderr)) in
          contains output "permission denied" || contains output "operation not permitted")

  unfoldable pub reported : (operation target : String) → Fields → Result PfResult
  reported operation target payload = do
    returncode ← int_or_zero floats texts (get payload "returncode")
    ok (record {
      table = text_or floats texts (get payload "table") pf.table;
      target = text_or floats texts (get payload "target") target;
      command = concat "configctl:" (text_or floats texts (get payload "command") operation);
      returncode = returncode;
      stdout = text_or floats texts (get payload "stdout") "";
      stderr = text_or floats texts (get payload "stderr") "";
    })

  unfoldable pub unreported :
      (operation target : String) (returncode : ℤ) (stdout stderr : String) → PfResult
  unreported operation target returncode stdout stderr = record {
    table = pf.table;
    target = target;
    command = concat "configctl:" operation;
    returncode = configctl_returncode returncode stdout;
    stdout = stdout;
    stderr = stderr;
  }

  -- `payload.get("pf_result") if isinstance(payload, dict) else None`
  unfoldable pub pf_payload : Option Value → Value
  pf_payload (some (obj payload)) = get payload "pf_result"
  pf_payload _ = null

  unfoldable pub read_report :
      (operation target : String) (returncode : ℤ) (stdout stderr : String)
      → Value
      → Result PfResult
  read_report operation target returncode stdout stderr (obj payload) =
      reported operation target payload
  read_report operation target returncode stdout stderr _ =
      ok (unreported operation target returncode stdout stderr)

  unfoldable pub configctl_result : (operation target : String) → Outcome → Result PfResult
  configctl_result operation target (os_error message) = ok (record {
    table = pf.table;
    target = target;
    command = concat "configctl:" operation;
    returncode = pos 127;
    stdout = "";
    stderr = message;
  })
  configctl_result operation target (completed returncode stdout stderr) =
      read_report operation target returncode (strip stdout) (strip stderr)
        (pf_payload (shell.json_loads (strip stdout)))

  unfoldable pub configctl_table_op : (operation target : String) → Action (List Command) PfResult
  configctl_table_op operation target ran =
      let command : Command =
        "/usr/local/sbin/configctl" ∷ "pondsecndr" ∷ "pf_table" ∷ operation ∷ target ∷ [] in
      (configctl_result operation target (shell.runner ran command), ran ++ command ∷ [])

  unfoldable pub pfctl_result :
      (operation target : String) (ran : List Command) → Outcome → Result PfResult × List Command
  pfctl_result operation target ran (os_error message) = (
    ok (record {
      table = pf.table;
      target = target;
      command = operation;
      returncode = pos 127;
      stdout = "";
      stderr = message;
    }),
    ran,
  )
  pfctl_result operation target ran (completed returncode stdout stderr) =
      if is_zero returncode || not (should_fallback stdout stderr)
      then (
        ok (record {
          table = pf.table;
          target = target;
          command = operation;
          returncode = returncode;
          stdout = strip stdout;
          stderr = strip stderr;
        }),
        ran,
      )
      else configctl_table_op operation target ran

  -- `_table_op`
  unfoldable pub table_op : (operation target : String) → Action (List Command) PfResult
  table_op operation target ran =
      let command : Command =
        "/sbin/pfctl"
        ∷ "-t"
        ∷ pf.table
        ∷ "-T"
        ∷ operation
        ∷ (if is_empty target then [] else target ∷ []) in
      pfctl_result operation target (ran ++ command ∷ []) (shell.runner ran command)

  unfoldable pub payload_rule_present : Option Value → Bool
  payload_rule_present (some (obj payload)) = truthy floats texts (get payload "rule_present")
  payload_rule_present _ = false

  unfoldable pub configctl_rule_outcome : Outcome → Bool
  configctl_rule_outcome (os_error message) = false
  configctl_rule_outcome (completed returncode stdout stderr) =
      payload_rule_present (shell.json_loads (strip stdout))

  unfoldable pub configctl_rule_present : List Command → Bool × List Command
  configctl_rule_present ran =
      let command : Command = "/usr/local/sbin/configctl" ∷ "pondsecndr" ∷ "pf_rule_present" ∷ [] in
      if not pf.allow_configctl || shell.skip_configctl
      then (false, ran)
      else (configctl_rule_outcome (shell.runner ran command), ran ++ command ∷ [])

  unfoldable pub rule_outcome : (ran : List Command) → Outcome → Bool × List Command
  rule_outcome ran (os_error message) = configctl_rule_present ran
  rule_outcome ran (completed returncode stdout stderr) =
      if is_zero returncode
      then (contains stdout (concat "<" (concat pf.table ">")) && contains stdout "block", ran)
      else if should_fallback stdout stderr
      then configctl_rule_present ran
      else (false, ran)

  unfoldable pub rule_present : List Command → Bool × List Command
  rule_present ran =
      let command : Command = "/sbin/pfctl" ∷ "-sr" ∷ [] in
      rule_outcome (ran ++ command ∷ []) (shell.runner ran command)
