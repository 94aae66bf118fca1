-- ===== src/Response/Pf/Fallback.antt =====
-- When an operation on the table of response/pf.py falls back to configctl.
use Prim.Native.String.{◌++◌ as concat}
use pondsecndr.Prelude.{
  ◌≡◌, ap, refl, arith, String, Bool, true, false, not, ◌&&◌, ◌||◌, List, [], ◌∷◌, ◌++◌, is_empty,
  contains, lower, if◌then◌else◌,
}
use pondsecndr.Prelude.Int.{ℤ}
use pondsecndr.Python.Float.{Floats}
use pondsecndr.Python.Value.{Texts}
use pondsecndr.Python.Result.{Result, ok}
use pondsecndr.Response.Pf.{
  Command, Outcome, os_error, completed, Shell, PfResult, Enforcer, is_zero, succeeded,
  should_fallback, configctl_result, configctl_table_op, pfctl_result, table_op,
}

abbrev pub pfctl_command : (table operation target : String) → Command
pfctl_command table operation target =
    "/sbin/pfctl" ∷ "-t" ∷ table ∷ "-T" ∷ operation ∷ (if is_empty target then [] else target ∷ [])

abbrev pub configctl_command : (operation target : String) → Command
configctl_command operation target =
    "/usr/local/sbin/configctl" ∷ "pondsecndr" ∷ "pf_table" ∷ operation ∷ target ∷ []

-- The command ran and was successful.
abbrev pub is_success : Outcome → Bool
is_success (os_error message) = false
is_success (completed returncode stdout stderr) = is_zero returncode

-- The command ran, failed, and said that it may not do this.
abbrev pub is_denied : Outcome → Bool
is_denied (os_error message) = false
is_denied (completed returncode stdout stderr) =
    let output = lower (concat stdout (concat "\n" stderr)) in
    not (is_zero returncode)
    && (contains output "permission denied" || contains output "operation not permitted")

module _ (floats : Floats) (texts : Texts) (shell : Shell) (pf : Enforcer) where
  abbrev pub may_fall_back : Outcome → Bool
  may_fall_back outcome = is_denied outcome && pf.allow_configctl && not shell.skip_configctl

  -- The answer of pfctl itself, after the commands `ran`.
  pub record Direct (ran : List Command) (outcome : Outcome)
      (result : Result PfResult × List Command) : Type 0 where
    pub answer : PfResult
    pub answered : result.0 ≡ ok answer
    pub reports : succeeded answer ≡ is_success outcome
    pub commands : result.1 ≡ ran

  should_fallback_lem :
      (returncode : ℤ) (stdout stderr : String)
      → (is_zero returncode || not (should_fallback floats texts shell pf stdout stderr))
        ≡ not (may_fall_back (completed returncode stdout stderr))
  unfolding should_fallback
  should_fallback_lem returncode stdout stderr = ground arith

  pfctl_result-Direct :
      (operation target : String) (ran : List Command) (outcome : Outcome)
      → may_fall_back outcome ≡ false
      → Direct ran outcome (pfctl_result floats texts shell pf operation target ran outcome)
  unfolding pfctl_result
  pfctl_result-Direct operation target ran (os_error message) h = record {
    answer = _;
    answered = refl;
    reports = refl;
    commands = refl;
  }
  pfctl_result-Direct operation target ran (completed returncode stdout stderr) h =
      let stays : is_zero returncode || not (should_fallback floats texts shell pf stdout stderr)
          ≡ true =
        ground (arith, h, should_fallback_lem returncode stdout stderr) in
      rw stays (record { answer = _; answered = refl; reports = refl; commands = refl })

  pfctl_result-fallback :
      (operation target : String) (ran : List Command) (outcome : Outcome)
      → may_fall_back outcome ≡ true
      → pfctl_result floats texts shell pf operation target ran outcome
        ≡ configctl_table_op floats texts shell pf operation target ran
  unfolding pfctl_result
  pfctl_result-fallback operation target ran (os_error message) h = absurd (ground (arith, h))
  pfctl_result-fallback operation target ran (completed returncode stdout stderr) h =
      let leaves : (is_zero returncode || not (should_fallback floats texts shell pf stdout stderr))
          ≡ false =
        ground (arith, h, should_fallback_lem returncode stdout stderr) in
      rw leaves refl

  pub record Answered (operation target : String) (ran : List Command)
      (result : Result PfResult × List Command) : Type 0 where
    pub direct :
        may_fall_back (shell.runner ran (pfctl_command pf.table operation target)) ≡ false
        → Direct
            (ran ++ pfctl_command pf.table operation target ∷ [])
            (shell.runner ran (pfctl_command pf.table operation target))
            result
    pub fallback :
        may_fall_back (shell.runner ran (pfctl_command pf.table operation target)) ≡ true
        → (result.1
            ≡ (ran ++ pfctl_command pf.table operation target ∷ [])
              ++ configctl_command operation target ∷ [])
          × (result.0
              ≡ configctl_result floats texts shell pf operation target (
                  shell.runner
                    (ran ++ pfctl_command pf.table operation target ∷ [])
                    (configctl_command operation target)))

  -- An operation runs pfctl first. If pfctl fails with a text that it may not do this, and configctl
  -- is allowed and not switched off, configctl is run next and its answer is the result; else nothing
  -- more is run, and the result is a success exactly if pfctl ran and returned 0.
  pub table_op-Answered :
      (operation target : String) (ran : List Command)
      → Answered operation target ran (table_op floats texts shell pf operation target ran)
  unfolding table_op configctl_table_op
  table_op-Answered operation target ran =
      let outcome = shell.runner ran (pfctl_command pf.table operation target) in
      let tried = ran ++ pfctl_command pf.table operation target ∷ [] in
      record {
        direct = pfctl_result-Direct operation target tried outcome;
        fallback = λ h.
            let same = pfctl_result-fallback operation target tried outcome h in
            (ap (λ r. r.1) same, ap (λ r. r.0) same);
      }
