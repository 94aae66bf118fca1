-- ===== src/Python/Value.antt =====
-- JSON values as Python holds them, and how the code reads dictionaries of them.
use pondsecndr.Prelude.{
  zero, String, Bool, true, false, not, List, [], ◌∷◌, Option, none, some, str_eq, is_empty,
  if◌then◌else◌,
}
use pondsecndr.Prelude.Int.{ℤ, pos}
use pondsecndr.Python.Float.{Float, Floats}
use pondsecndr.Python.Result.{Result, ok, raise, type_error, value_error, overflow_error}

mutual
  pub data Value : Type 0 where
    null : Value
    bool : Bool → Value
    int : ℤ → Value
    float : Float → Value
    str : String → Value
    obj : Fields → Value
    arr : Items → Value

  pub data Fields : Type 0 where
    end : Fields
    field : String → Value → Fields → Fields

  pub data Items : Type 0 where
    empty : Items
    item : Value → Items → Items

-- `d.get(key)`, with `null` for a missing key.
unfoldable pub get : Fields → String → Value
get end key = null
get (field k v rest) key = if str_eq k key then v else get rest key

-- `key in d`
unfoldable pub has : Fields → String → Bool
has end key = false
has (field k v rest) key = if str_eq k key then true else has rest key

-- `v if isinstance(v, dict) else {}`
unfoldable pub as_dict : Value → Fields
as_dict (obj fields) = fields
as_dict _ = end

-- `v if isinstance(v, list) else []`
unfoldable pub as_list : Value → Items
as_list (arr items) = items
as_list _ = empty

-- `[item for item in items if isinstance(item, dict)]`
unfoldable pub dicts : Items → List Fields
dicts empty = []
dicts (item (obj fields) rest) = fields ∷ dicts rest
dicts (item _ rest) = dicts rest

unfoldable pub elements : Items → List Value
elements empty = []
elements (item v rest) = v ∷ elements rest

-- What `str` prints of a value that is no text, and what `int` and `float` read in a text (`none`
-- where they raise `ValueError`), is Python's own.
pub record Texts : Type 0 where
  pub repr : Value → String
  pub parse_int : String → Option ℤ
  pub parse_float : String → Option Float

module _ (floats : Floats) (texts : Texts) where
  -- `bool(v)`
  unfoldable pub truthy : Value → Bool
  truthy null = false
  truthy (bool b) = b
  truthy (int (pos zero)) = false
  truthy (int _) = true
  truthy (float x) = not (floats.is_zero x)
  truthy (str s) = not (is_empty s)
  truthy (arr empty) = false
  truthy (arr (item _ _)) = true
  truthy (obj end) = false
  truthy (obj (field _ _ _)) = true

  -- `str(v)`
  unfoldable pub text : Value → String
  text (str s) = s
  text v = texts.repr v

  -- `str(v or default)`
  unfoldable pub text_or : Value → String → String
  text_or v default = if truthy v then text v else default

  -- `int(v)` and `float(v)`
  from_parsed {ℓ} : {A : Type ℓ} → Option A → Result A
  from_parsed none = raise value_error
  from_parsed (some a) = ok a

  unfoldable pub to_int : Value → Result ℤ
  unfolding from_parsed
  to_int (int n) = ok n
  to_int (bool b) = ok (pos (if b then 1 else 0))
  to_int (float x) =
      if floats.is_nan x
      then raise value_error
      else if floats.is_finite x
      then ok (floats.trunc x)
      else raise overflow_error
  to_int (str s) = from_parsed (texts.parse_int s)
  to_int _ = raise type_error

  unfoldable pub to_float : Value → Result Float
  unfolding from_parsed
  to_float (int n) = ok (floats.of_int n)
  to_float (bool b) = ok (floats.of_int (pos (if b then 1 else 0)))
  to_float (float x) = ok x
  to_float (str s) = from_parsed (texts.parse_float s)
  to_float _ = raise type_error

  -- `int(v or 0)` and `float(v or 0)`
  unfoldable pub int_or_zero : Value → Result ℤ
  int_or_zero v = if truthy v then to_int v else ok (pos 0)

  unfoldable pub float_or_zero : Value → Result Float
  float_or_zero v = if truthy v then to_float v else ok (floats.of_int (pos 0))
