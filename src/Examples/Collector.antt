-- ===== src/Examples/Collector.antt =====
-- The theorems on the collectors, on a file of three lines.
use pondsecndr.Prelude.{
  drop, ◌==◌, ◌≡◌, refl, arith, String, false, List, [], ◌∷◌, Option, none, some, is_in, str_eq,
  if◌then◌else◌,
}
use pondsecndr.Collector.{Line, found, opened, FileSystem, SavedOffset, Parsed, event, start_with}
use pondsecndr.Collector.Eve
use pondsecndr.Collector.Parse.{Loaded, malformed, loaded, parse_line}
use pondsecndr.Python.Result.{Result, ok, raise, attribute_error}
use pondsecndr.Python.Value.{Value, str, obj, field, end, get, text_or, truthy, text}
use pondsecndr.Schema.{Calendar, parse_timestamp, valid_ip, valid_port}
use pondsecndr.Normalizer.{normalize_eve}
use pondsecndr.Normalizer.Metadata.{Readers, metadata_of}
use pondsecndr.Samples
use pondsecndr.Collector.FilterLog
use pondsecndr.Collector.Accounting.{Unique, IsAccounted, read_lines-IsAccounted}

abbrev lines : List Line
lines =
    record { text = "a"; size = 2 }
    ∷ record { text = "b"; size = 2 }
    ∷ record { text = "a"; size = 2 }
    ∷ []

abbrev parse : String → Parsed
parse s = event s

abbrev fs : FileSystem
fs = record { stat = found 7 6; read_from = λ n. opened lines; save_error = none }

abbrev before : Option SavedOffset
before = some (record { inode = some 7; offset = 0 })

-- Records of Suricata: only `a` is no JSON, and the flow of the others is a text.
abbrev readers : Readers
readers = record {
  floats = Samples.floats;
  texts = Samples.texts;
  ipaddress = Samples.ipaddress;
  url_path = λ s. ok s;
}

abbrev calendar : Calendar
calendar = record { now = "now"; from_timestamp = λ x. ok "then"; from_iso = λ s. some s }

abbrev flow_record : Value
flow_record = obj (
    field "event_type" (str "flow") (
      field "src_ip" (str Samples.external_host)
        (field "dest_ip" (str Samples.internal_host) (field "flow" (str "x") end))))

abbrev loads : String → Loaded
loads s = if str_eq s "a" then malformed "Expecting value" else loaded flow_record

abbrev eve_parse : String → Result Parsed
eve_parse = parse_line loads (λ n. "1") readers calendar (λ e. "event")

flow-text_lem : eve_parse "b" ≡ raise attribute_error
unfolding parse_line normalize_eve is_in text_or truthy get text parse_timestamp valid_ip valid_port
    metadata_of
flow-text_lem = refl

nothing-IsAccounted : IsAccounted 10 (start_with false)
unfolding Unique is_in
nothing-IsAccounted = record {
  accepted = refl;
  limited = omega arith;
  distinct = tt;
  seen = λ e i. i;
  lines = omega arith;
  fresh = refl;
}

read_lines-IsAccounted_example :
    IsAccounted 10 (Eve.read_lines eve_parse 10 5 lines (start_with false)).0
read_lines-IsAccounted_example =
    read_lines-IsAccounted eve_parse 10 5 lines (start_with false) nothing-IsAccounted

-- The log of the three lines.
abbrev log : FileSystem
log = record {
  stat = found 7 6;
  read_from = λ n. opened (
      if n == 0
      then lines
      else if n == 2
      then drop 1 lines
      else if n == 4
      then drop 2 lines
      else []);
  save_error = none;
}
