-- ===== src/Collector/Offsets.antt =====
-- Where the next reading of collectors/eve.py and collectors/filterlog.py begins.
use pondsecndr.Prelude.{ℕ, ◌≡◌, String, Bool, true, false, strip, is_empty, if◌then◌else◌}
use pondsecndr.Collector.{Line, Parsed}
use pondsecndr.Collector.Eve
use pondsecndr.Python.Result.{Result, ok, raise}
use pondsecndr.Collector.FilterLog

abbrev pub is_raised {ℓ} : {A : Type ℓ} → Result A → Bool
is_raised (ok a) = false
is_raised (raise e) = true

module _ (parse : String → Result Parsed) (queue_limit : ℕ) where
  -- Reading the line ends in an exception.
  unfoldable pub crashes : Line → Bool
  crashes line = if is_empty (strip line.text) then false else is_raised (parse (strip line.text))

  -- How the loop ends: with the exception of a line, or by `break` if there are more lines.
  End : (crashed full : Bool) → Result Bool → Type 0
  End true full r = is_raised r ≡ true
  End false full r = r ≡ ok full
