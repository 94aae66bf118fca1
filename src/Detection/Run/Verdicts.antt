-- ===== src/Detection/Run/Verdicts.antt =====
-- What makes a detection sound, and how the loops and tests of detection/detectors.py keep it.
use pondsecndr.Prelude.{
  ℕ, ◌≤◌, ◌≡◌, arith, String, Bool, true, false, List, [], ◌∷◌, ◌++◌, All, All-append, keep, length,
  leb, str_eq, is_in, Bool-cases, inl, inr, if◌then◌else◌,
}
use pondsecndr.Python.Result.{Result, ok, raise, ◌>>=◌}
use pondsecndr.Detection.{Detection, Tools}
use pondsecndr.Detection.Make.{Finding, make_detection, clamp_severity}
use pondsecndr.Detection.Groups.{Groups}
use pondsecndr.Detection.Scans.{report_large}
use pondsecndr.Detection.Windows.{detect_each}

abbrev learning_ids : List String
learning_ids = "pondsec.host_baseline_anomaly" ∷ "pondsec.pretrained_ids_model" ∷ []

abbrev categories : List String
categories =
    "reconnaissance" ∷ "command_and_control" ∷ "lateral_movement" ∷ "exfiltration"
    ∷ "machine_learning" ∷ "anomaly" ∷ "signature" ∷ "evasion" ∷ []

-- A severity from 1 to 10, a known category, and an answer by a block proposed by the two detectors
-- that learn and by no other.
pub record IsSound (d : Detection) : Type 0 where
  pub lowest : 1 ≤ d.severity
  pub highest : d.severity ≤ 10
  pub known : is_in d.category categories ≡ true
  pub blocks : str_eq d.recommended_action "block" ≡ is_in d.detector_id learning_ids

-- The same of a finding, whose severity is clamped.
abbrev pub IsSoundFinding : Finding → Type 0
IsSoundFinding f =
    (is_in f.category categories ≡ true)
    × (str_eq f.recommended_action "block" ≡ is_in f.detector_id learning_ids)

pub make_detection-IsSound :
    (tools : Tools) (f : Finding) → IsSoundFinding f → IsSound (make_detection tools f)
unfolding make_detection clamp_severity
make_detection-IsSound tools f h = record {
  lowest = ground arith;
  highest = ground arith;
  known = h.0;
  blocks = h.1;
}

-- What a detector that does not raise returns.
abbrev pub AllSound : Result (List Detection) → Type 0
AllSound (ok ds) = All IsSound ds
AllSound (raise e) = Unit

pub append-AllSound :
    (r s : Result (List Detection))
    → AllSound r
    → AllSound s
    → AllSound (r >>= λ found. s >>= λ rest. ok (found ++ rest))
append-AllSound (raise e) s h k = tt
append-AllSound (ok found) (raise e) h k = tt
append-AllSound (ok found) (ok rest) h k = All-append IsSound found rest h k

pub bind-AllSound {ℓ} :
    {A : Type ℓ} (r : Result A) (f : A → Result (List Detection))
    → ((a : A) → AllSound (f a))
    → AllSound (r >>= f)
bind-AllSound (raise e) f h = tt
bind-AllSound (ok a) f h = h a

pub one-AllSound : (b : Bool) (d : Detection) → IsSound d → AllSound (ok (if b then d ∷ [] else []))
one-AllSound true d h = (h, tt)
one-AllSound false d h = tt

pub none-AllSound :
    (b : Bool) (d : Detection) → IsSound d → AllSound (ok (if b then [] else d ∷ []))
none-AllSound true d h = tt
none-AllSound false d h = (h, tt)

pub three_tests-All :
    (a b c : Bool) (d : Detection)
    → IsSound d
    → All IsSound (if a then [] else if b then [] else if c then d ∷ [] else [])
three_tests-All true b c d h = tt
three_tests-All false true c d h = tt
three_tests-All false false true d h = (h, tt)
three_tests-All false false false d h = tt

pub detect_each-AllSound {ℓ} :
    {A : Type ℓ} (f : A → Result (List Detection)) (xs : List A)
    → ((x : A) → AllSound (f x))
    → AllSound (detect_each f xs)
unfolding detect_each
detect_each-AllSound f [] h = tt
detect_each-AllSound f (x ∷ xs) h =
    append-AllSound (f x) (detect_each f xs) (h x) (detect_each-AllSound f xs h)

pub report_large-All {ℓ κ} :
    {K : Type ℓ} {V : Type κ} (minimum : ℕ) (make : K → List V → Detection) (groups : Groups K V)
    → ((key : K) (values : List V) → IsSound (make key values))
    → All IsSound (report_large minimum make groups)
unfolding report_large keep
report_large-All minimum make [] h = tt
report_large-All minimum make ((key, values) ∷ groups) h =
    elim (Bool-cases (leb minimum (length values))) [
      | inl large ↦ rw large (h key values, report_large-All minimum make groups h)
      | inr small ↦ rw small (report_large-All minimum make groups h)
    ]
