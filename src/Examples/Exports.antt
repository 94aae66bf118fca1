-- ===== src/Examples/Exports.antt =====
-- The theorems on normalizers/suricata.py and privacy.py, on a request that carries credentials.
use Prim.Native.String.{◌++◌ as concat}
use package.text.Mathlib.TextLemmas.{cons-append}
use pondsecndr.Prelude.{
  ◌≡◌, refl, arith, sym, subst, ◌||◌, if◌then◌else◌, String, true, false, none, some, starts_with,
  is_in,
}
use pondsecndr.Python.Result.{Result, ok, raise}
use pondsecndr.Python.Value.{
  Value, null, str, obj, arr, Fields, end, field, empty, item, get, truthy, text, text_or,
}
use pondsecndr.Schema.{Event, Calendar, parse_timestamp, valid_ip, valid_port}
use pondsecndr.Python.Ipaddress.{Ipaddress}
use pondsecndr.Normalizer.{normalize_eve}
use pondsecndr.Normalizer.Metadata.{Readers, metadata_of}
use pondsecndr.Normalizer.Normal.{IsNormal, normalize_eve-IsNormal}
use pondsecndr.Normalizer.Headers.{IsRedacted, normalize_eve-IsRedacted}
use pondsecndr.Privacy.{sanitize_for_export, looks_like_address}
use pondsecndr.Privacy.Clean.{IgnoresMarks, is_clean, sanitize_for_export-is_clean}
use pondsecndr.Samples

abbrev readers : Readers
readers = record {
  floats = Samples.floats;
  texts = Samples.texts;
  ipaddress = Samples.ipaddress;
  url_path = λ s. ok "/login";
}

abbrev calendar : Calendar
calendar = record { now = "now"; from_timestamp = λ x. ok "then"; from_iso = λ s. some s }

abbrev event_id_from : Event → String
event_id_from e = "event"

abbrev headers : Fields
headers = field "Authorization" (str "Basic") (field "Host" (str "shop") end)

abbrev request : Value
request = obj (
    field "event_type" (str "http") (
      field "src_ip" (str Samples.external_host) (
        field "dest_ip" (str Samples.internal_host) (
          field "http" (obj (field "url" (str "/login") (field "headers" (obj headers) end)))
            end))))

abbrev event_or : Event → Result Event → Event
event_or default (ok e) = e
event_or default (raise error) = default

abbrev nothing : Event
nothing = record {
  event_id = "";
  event_type = "stats";
  timestamp = "";
  source_ip = none;
  source_port = none;
  interface = null;
  destination_ip = none;
  destination_port = none;
  protocol = null;
  direction = "unknown";
  metadata = end;
}

abbrev event : Event
event = event_or nothing (normalize_eve readers calendar event_id_from request)

event_lem : normalize_eve readers calendar event_id_from request ≡ ok event
unfolding normalize_eve is_in text_or truthy get text parse_timestamp valid_ip valid_port
    metadata_of
event_lem = refl

normalize_eve-IsNormal_example : IsNormal Samples.ipaddress event
normalize_eve-IsNormal_example =
    normalize_eve-IsNormal readers calendar event_id_from request event_lem

normalize_eve-IsRedacted_example : IsRedacted (get event.metadata "headers")
normalize_eve-IsRedacted_example =
    normalize_eve-IsRedacted readers calendar event_id_from request event_lem

abbrev digest : String → String
digest s = "0123456789ab"

-- No address begins with a letter.
abbrev lib : Ipaddress
lib = record Samples.ipaddress {
  ip_address =
      λ s. if starts_with s "a" || starts_with s "[" then none else Samples.ipaddress.ip_address s;
  ip_network =
      λ s. if starts_with s "a" || starts_with s "[" then none else Samples.ipaddress.ip_network s;
}

named-looks :
    (s : String)
    → (starts_with s "a" || starts_with s "[") ≡ true
    → looks_like_address lib digest s ≡ false
unfolding looks_like_address
named-looks s h = rw h (ground arith)

ignores : IgnoresMarks lib digest
unfolding starts_with
ignores = record {
  redaction = named-looks "[redacted]" refl;
  marks = λ s. named-looks (concat "anon-" s) (
      subst (λ x. (starts_with x "a" || starts_with x "[") ≡ true) (sym (cons-append "a" "non-" s))
        refl);
}

abbrev export : Value
export = obj (
    field "source_ip" (str Samples.external_host)
      (field "api_token" (arr (item (str "secret") empty)) end))

sanitize_for_export-is_clean_example :
    is_clean lib digest (sanitize_for_export lib digest true none export) ≡ true
sanitize_for_export-is_clean_example = sanitize_for_export-is_clean lib digest ignores none export
