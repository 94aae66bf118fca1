-- ===== src/Collector/Parse.antt =====
-- What a line of Suricata's file becomes in read_once of collectors/eve.py: `json.loads`, which is
-- given, and normalize_eve, whose NormalizationError alone has a handler.
use Prim.Native.String.{◌++◌ as concat}
use pondsecndr.Prelude.{ℕ, String}
use pondsecndr.Python.Result.{Result, ok, raise, normalization_error}
use pondsecndr.Python.Value.{Value}
use pondsecndr.Schema.{Event, Calendar}
use pondsecndr.Normalizer.{normalize_eve}
use pondsecndr.Normalizer.Metadata.{Readers}
use pondsecndr.Collector.{Parsed, unparsed, unnormalised, event}

-- A value, or the message of a JSONDecodeError.
pub data Loaded : Type 0 where
  malformed : (message : String) → Loaded
  loaded : Value → Loaded

unfoldable pub take_normalised : Result Event → Result Parsed
take_normalised (ok e) = ok (event e.event_id)
take_normalised (raise (normalization_error message)) = ok (unnormalised message)
take_normalised (raise e) = raise e

-- `number` writes a number of lines.
module _ (loads : String → Loaded) (number : ℕ → String) (readers : Readers) (calendar : Calendar)
    (event_id_from : Event → String) where
  unfoldable pub take_loaded : Loaded → Result Parsed
  unfolding take_normalised
  take_loaded (malformed message) =
      ok (
        unparsed
          (λ n. concat "json parse error at line " (concat (number n) (concat ": " message))))
  take_loaded (loaded raw) = take_normalised (normalize_eve readers calendar event_id_from raw)

  unfoldable pub parse_line : String → Result Parsed
  unfolding take_loaded
  parse_line stripped = take_loaded (loads stripped)
