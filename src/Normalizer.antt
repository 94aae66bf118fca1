-- ===== src/Normalizer.antt =====
-- normalizers/suricata.py: the event that a record of Suricata's EVE file becomes.
pub mod Metadata
pub mod Normal
pub mod Headers
use Prim.Native.String.{◌++◌ as concat}
use pondsecndr.Prelude.{
  ℕ, String, Bool, true, false, not, ◌&&◌, ◌||◌, List, [], ◌∷◌, Option, none, some, str_eq, is_in,
  if◌then◌else◌,
}
use pondsecndr.Python.Result.{Result, ok, raise, ◌>>=◌, ◌>>◌, deny, normalization_error}
use pondsecndr.Python.Ipaddress.{is_private_ip}
use pondsecndr.Python.Value.{Value, null, obj, Fields, end, field, get, text_or}
use pondsecndr.Storage.{given}
use pondsecndr.Schema.{Event, Calendar, valid_ip, valid_port, parse_timestamp}
use pondsecndr.Normalizer.Metadata.{Readers, or_value, metadata_of}

abbrev pub supported_eve_types : List String
supported_eve_types =
    "flow" ∷ "alert" ∷ "drop" ∷ "dns" ∷ "tls" ∷ "http" ∷ "fileinfo" ∷ "anomaly" ∷ "stats" ∷ []

abbrev is_null : Value → Bool
is_null null = true
is_null _ = false

-- `{key: value for key, value in metadata.items() if value is not None}`
unfoldable pub without_nulls : Fields → Fields
without_nulls end = end
without_nulls (field k v rest) =
    if is_null v then without_nulls rest else field k v (without_nulls rest)

module _ (readers : Readers) (calendar : Calendar) (event_id_from : Event → String) where
  unfoldable pub is_private : Option String → Bool
  is_private none = false
  is_private (some ip) = is_private_ip readers.ipaddress ip

  -- `_direction`
  unfoldable pub direction_of : (src_ip dst_ip : Option String) → String
  unfolding is_private
  direction_of src_ip dst_ip =
      let src_private = is_private src_ip in
      let dst_private = is_private dst_ip in
      if src_private && not dst_private
      then "egress"
      else if not src_private && dst_private
      then "ingress"
      else if src_private && dst_private
      then "internal"
      else if given src_ip || given dst_ip
      then "external"
      else "unknown"

  unfoldable pub address_at : Fields → String → Option String
  address_at raw key = valid_ip readers.floats readers.texts readers.ipaddress (get raw key)

  -- The tests of a time stamp and of the addresses.
  unfoldable pub check_moment : (event_type : String) → Fields → Option String → Result String
  unfolding address_at
  check_moment event_type raw none = raise (normalization_error "invalid timestamp")
  check_moment event_type raw (some timestamp) =
      let is_stats = str_eq event_type "stats" in
      deny (not (given (address_at raw "src_ip")) && not is_stats)
        (normalization_error "invalid source ip")
      >> (deny (not (given (address_at raw "dest_ip")) && not is_stats)
            (normalization_error "invalid destination ip")
          >> ok timestamp)

  -- The tests before the event is made: its time stamp.
  unfoldable pub check_record : (event_type : String) → Fields → Result String
  unfolding check_moment
  check_record event_type raw =
      deny (not (is_in event_type supported_eve_types))
        (normalization_error (concat "unsupported event type: " event_type))
      >> (parse_timestamp readers.floats readers.texts calendar (get raw "timestamp")
          >>= check_moment event_type raw)

  -- The ports of both sides.
  unfoldable pub ports_of : Fields → Result (Option ℕ × Option ℕ)
  ports_of raw =
      valid_port readers.floats readers.texts readers.ipaddress (get raw "src_port") >>= λ source.
      valid_port readers.floats readers.texts readers.ipaddress (get raw "dest_port") >>= λ target.
      ok (source, target)

  -- The event before it has its id.
  unfoldable pub event_of :
      (event_type timestamp : String)
      → (ports : Option ℕ × Option ℕ) → (raw metadata : Fields) → Event
  unfolding address_at direction_of without_nulls
  event_of event_type timestamp ports raw metadata =
      let src_ip = address_at raw "src_ip" in
      let dst_ip = address_at raw "dest_ip" in
      record {
        event_id = "";
        event_type = event_type;
        timestamp = timestamp;
        source_ip = src_ip;
        source_port = ports.0;
        interface = or_value readers (get raw "in_iface") (get raw "iface");
        destination_ip = dst_ip;
        destination_port = ports.1;
        protocol = or_value readers (get raw "proto") (get raw "app_proto");
        direction = direction_of src_ip dst_ip;
        metadata = without_nulls metadata;
      }

  unfoldable pub with_id : Event → Event
  with_id event = record event { event_id = event_id_from event }

  unfoldable pub normalize_fields : Fields → Result Event
  unfolding check_record ports_of event_of with_id
  normalize_fields raw =
      let event_type = text_or readers.floats readers.texts (get raw "event_type") "flow" in
      check_record event_type raw >>= λ timestamp. ports_of raw >>= λ ports.
      metadata_of readers event_type raw >>= λ metadata.
      ok (with_id (event_of event_type timestamp ports raw metadata))

  unfoldable pub normalize_eve : Value → Result Event
  unfolding normalize_fields
  normalize_eve (obj raw) = normalize_fields raw
  normalize_eve _ = raise (normalization_error "event is not an object")
