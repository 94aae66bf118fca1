-- ===== src/Schema.antt =====
-- schema.py: the events that the normalizers make, and the tests of their parts. The parsing of
-- moments, of addresses and of numbers is the library's.
use pondsecndr.Prelude.{
  ℕ, String, Bool, true, false, Option, none, some, leb, is_empty, strip, if◌then◌else◌,
}
use pondsecndr.Prelude.Int.{ℤ, pos, negsuc}
use pondsecndr.Python.Float.{Float, Floats}
use pondsecndr.Python.Ipaddress.{Ipaddress, Address}
use pondsecndr.Python.Value.{Value, null, bool, int, float, str, Fields, Texts, text, to_int}
use pondsecndr.Python.Result.{Result, ok, raise, type_error, value_error, ◌>>=◌}

-- The event dictionary, whose keys are always there.
pub record Event : Type 0 where
  pub event_id : String
  pub event_type : String
  pub timestamp : String
  pub source_ip : Option String
  pub source_port : Option ℕ
  pub interface : Value
  pub destination_ip : Option String
  pub destination_port : Option ℕ
  pub protocol : Value
  pub direction : String
  pub metadata : Fields

-- `value in (None, "")`
abbrev pub is_blank : Value → Bool
is_blank null = true
is_blank (str s) = is_empty s
is_blank _ = false

-- `int` may raise `TypeError` or `ValueError`, which have a handler, or `OverflowError`, which has none.
unfoldable pub port_in_range : Result ℤ → Result (Option ℕ)
port_in_range (ok (pos port)) = ok (if leb port 65535 then some port else none)
port_in_range (ok (negsuc n)) = ok none
port_in_range (raise type_error) = ok none
port_in_range (raise value_error) = ok none
port_in_range (raise e) = raise e

module _ (floats : Floats) (texts : Texts) (ipaddress : Ipaddress) where
  unfoldable pub shown : Option Address → Option String
  shown none = none
  shown (some a) = some (ipaddress.show_address a)

  unfoldable pub valid_ip : Value → Option String
  unfolding shown
  valid_ip value =
      if is_blank value then none else shown (ipaddress.ip_address (text floats texts value))

  unfoldable pub valid_port : Value → Result (Option ℕ)
  unfolding port_in_range
  valid_port value = if is_blank value then ok none else port_in_range (to_int floats texts value)

-- What a moment is printed as, in UTC. `from_iso` reads `s.replace("Z", "+00:00")`, and gives `none`
-- for `ValueError`; `from_timestamp` may raise for a number that is no moment.
pub record Calendar : Type 0 where
  pub now : String
  pub from_timestamp : Float → Result String
  pub from_iso : String → Option String

module _ (floats : Floats) (texts : Texts) (calendar : Calendar) where
  from_number : Float → Result (Option String)
  from_number x = calendar.from_timestamp x >>= λ moment. ok (some moment)

  unfoldable pub parse_timestamp : Value → Result (Option String)
  unfolding from_number
  parse_timestamp null = ok (some calendar.now)
  parse_timestamp (bool b) = from_number (floats.of_int (pos (if b then 1 else 0)))
  parse_timestamp (int n) = from_number (floats.of_int n)
  parse_timestamp (float x) = from_number x
  parse_timestamp value =
      let stripped = strip (text floats texts value) in
      ok (if is_empty stripped then none else calendar.from_iso stripped)
