-- ===== src/Normalizer/Normal.antt =====
-- What every event is that normalize_eve of normalizers/suricata.py returns.
use pondsecndr.Prelude.{
  ℕ, ◌≤◌, ◌≡◌, ◌⊎◌, inl, inr, refl, arith, subst, String, Bool, true, false, not, ◌&&◌, any, is_in,
  Option, none, some, str_eq, leb, Bool-cases, if◌then◌else◌,
}
use pondsecndr.Prelude.Int.{ℤ, pos, negsuc}
use pondsecndr.Python.Result.{
  Result, ok, raise, ◌>>◌, deny, Error, ok-injective, >>=-eq-ok, type_error, value_error,
  overflow_error, attribute_error, integrity_error, response_denied, normalization_error,
}
use pondsecndr.Python.Ipaddress.{Ipaddress, Address}
use pondsecndr.Python.Value.{
  Value, null, bool, int, float, str, obj, arr, Fields, end, field, get, to_int, text, text_or,
}
use pondsecndr.Detection.Explain.{entries}
use pondsecndr.Storage.{given}
use pondsecndr.Schema.{
  Event, Calendar, is_blank, port_in_range, shown, valid_ip, valid_port, parse_timestamp,
}
use pondsecndr.Normalizer.Metadata.{Readers, metadata_of}
use pondsecndr.Normalizer.{
  is_null, without_nulls, check_moment, check_record, event_of, with_id, normalize_fields,
  normalize_eve, ports_of, address_at, supported_eve_types,
}

-- A port is missing or has 16 bits.
unfoldable pub IsPort : Option ℕ → Type 0
IsPort none = Unit
IsPort (some port) = port ≤ 65535

-- An address is missing or printed by the library.
unfoldable pub IsPrinted : Ipaddress → Option String → Type 0
IsPrinted lib none = Unit
IsPrinted lib (some ip) = (a : Address) × (ip ≡ lib.show_address a)

pub record IsNormal (lib : Ipaddress) (e : Event) : Type 0 where
  pub known : is_in e.event_type supported_eve_types ≡ true
  pub source : (given e.source_ip ≡ true) ⊎ (str_eq e.event_type "stats" ≡ true)
  pub destination : (given e.destination_ip ≡ true) ⊎ (str_eq e.event_type "stats" ≡ true)
  pub source_printed : IsPrinted lib e.source_ip
  pub destination_printed : IsPrinted lib e.destination_ip
  pub source_port : IsPort e.source_port
  pub destination_port : IsPort e.destination_port
  pub no_nulls : any (λ (k, v). is_null v) (entries e.metadata) ≡ false

in_range-IsPort : (port : ℕ) → IsPort (if leb port 65535 then some port else none)
unfolding IsPort
in_range-IsPort port = elim (Bool-cases (leb port 65535)) [
  | inl small ↦ rw small (ground (arith, small))
  | inr large ↦ rw large tt
]

none-IsPort : {port : Option ℕ} → ok none ≡ ok port → IsPort port
unfolding IsPort
none-IsPort h = subst IsPort (ok-injective h) tt

port_in_range-IsPort : (r : Result ℤ) {port : Option ℕ} → port_in_range r ≡ ok port → IsPort port
unfolding port_in_range
port_in_range-IsPort (ok (pos port)) h = subst IsPort (ok-injective h) (in_range-IsPort port)
port_in_range-IsPort (ok (negsuc n)) h = none-IsPort h
port_in_range-IsPort (raise type_error) h = none-IsPort h
port_in_range-IsPort (raise value_error) h = none-IsPort h
port_in_range-IsPort (raise overflow_error) h = absurd (ground (arith, h))
port_in_range-IsPort (raise attribute_error) h = absurd (ground (arith, h))
port_in_range-IsPort (raise integrity_error) h = absurd (ground (arith, h))
port_in_range-IsPort (raise (response_denied m)) h = absurd (ground (arith, h))
port_in_range-IsPort (raise (normalization_error m)) h = absurd (ground (arith, h))

without_nulls-no_nulls :
    (fields : Fields) → any (λ (k, v). is_null v) (entries (without_nulls fields)) ≡ false
unfolding without_nulls any
without_nulls-no_nulls end = refl
without_nulls-no_nulls (field k v rest) = ground (arith, without_nulls-no_nulls rest)

deny-passed :
    (test : Bool) (e : Error) (r : Result String) {a : String}
    → (deny test e >> r) ≡ ok a
    → (test ≡ false) × (r ≡ ok a)
deny-passed false e r h = (refl, h)
deny-passed true e r h = absurd (ground (arith, h))

one_of : (a b : Bool) → (not a && not b) ≡ false → (a ≡ true) ⊎ (b ≡ true)
one_of true b h = inl refl
one_of false b h = inr (ground (arith, h))

module _ (readers : Readers) (calendar : Calendar) (event_id_from : Event → String) where
  valid_port-IsPort :
      (value : Value) {port : Option ℕ}
      → valid_port readers.floats readers.texts readers.ipaddress value ≡ ok port
      → IsPort port
  unfolding valid_port IsPort
  valid_port-IsPort value h = elim (Bool-cases (is_blank value)) [
    | inl blank ↦ subst IsPort (ok-injective (rw blank at h)) tt
    | inr there ↦ port_in_range-IsPort (to_int readers.floats readers.texts value) (rw there at h)
  ]

  shown-IsPrinted :
      (a : Option Address)
      → IsPrinted readers.ipaddress (shown readers.floats readers.texts readers.ipaddress a)
  unfolding shown IsPrinted
  shown-IsPrinted none = tt
  shown-IsPrinted (some a) = (a, refl)

  valid_ip-IsPrinted :
      (value : Value)
      → IsPrinted readers.ipaddress (valid_ip readers.floats readers.texts readers.ipaddress value)
  unfolding valid_ip IsPrinted
  valid_ip-IsPrinted value = elim (Bool-cases (is_blank value)) [
    | inl blank ↦ rw blank tt
    | inr there ↦
        rw there
          (shown-IsPrinted (readers.ipaddress.ip_address (text readers.floats readers.texts value)))
  ]

  abbrev at : Fields → String → Option String
  at = address_at readers calendar event_id_from

  timed-known :
      (event_type : String) (raw : Fields) (moment : Option String) {timestamp : String}
      → check_moment readers calendar event_id_from event_type raw moment ≡ ok timestamp
      → ((given (at raw "src_ip") ≡ true) ⊎ (str_eq event_type "stats" ≡ true))
        × ((given (at raw "dest_ip") ≡ true) ⊎ (str_eq event_type "stats" ≡ true))
  unfolding check_moment
  timed-known event_type raw none h = absurd (ground (arith, h))
  timed-known event_type raw (some moment) h =
      let (source, rest) =
        deny-passed (not (given (at raw "src_ip")) && not (str_eq event_type "stats")) _ _ h in
      let (destination, last) =
        deny-passed (not (given (at raw "dest_ip")) && not (str_eq event_type "stats")) _ _ rest in
      (one_of _ _ source, one_of _ _ destination)

  -- What the tests have made sure of.
  check_record-known :
      (event_type : String) (raw : Fields) {timestamp : String}
      → check_record readers calendar event_id_from event_type raw ≡ ok timestamp
      → (is_in event_type supported_eve_types ≡ true)
        × ((given (at raw "src_ip") ≡ true) ⊎ (str_eq event_type "stats" ≡ true))
        × ((given (at raw "dest_ip") ≡ true) ⊎ (str_eq event_type "stats" ≡ true))
  unfolding check_record
  check_record-known event_type raw h =
      let (known, rest) = deny-passed (not (is_in event_type supported_eve_types)) _ _ h in
      let (moment, parsed, last) =
        >>=-eq-ok (parse_timestamp readers.floats readers.texts calendar (get raw "timestamp")) _
          rest in
      let (source, destination) = timed-known event_type raw moment last in
      (ground (arith, known), source, destination)

  ports_of-IsPort :
      (raw : Fields) {ports : Option ℕ × Option ℕ}
      → ports_of readers calendar event_id_from raw ≡ ok ports
      → IsPort ports.0 × IsPort ports.1
  unfolding ports_of
  ports_of-IsPort raw h =
      let (source, one, rest) =
        >>=-eq-ok (valid_port readers.floats readers.texts readers.ipaddress (get raw "src_port")) _
          h in
      let (target, two, both) =
        >>=-eq-ok (valid_port readers.floats readers.texts readers.ipaddress (get raw "dest_port"))
          _ rest in
      subst (λ (p : Option ℕ × Option ℕ). IsPort p.0 × IsPort p.1) (ok-injective both)
        (valid_port-IsPort (get raw "src_port") one, valid_port-IsPort (get raw "dest_port") two)

  event_of-IsNormal :
      (event_type timestamp : String) (ports : Option ℕ × Option ℕ) (raw metadata : Fields)
      → check_record readers calendar event_id_from event_type raw ≡ ok timestamp
      → IsPort ports.0 × IsPort ports.1
      → IsNormal readers.ipaddress (
          with_id readers calendar event_id_from
            (event_of readers calendar event_id_from event_type timestamp ports raw metadata))
  unfolding with_id event_of address_at
  event_of-IsNormal event_type timestamp ports raw metadata h both =
      let (known, source, destination) = check_record-known event_type raw h in
      record {
        known = known;
        source = source;
        destination = destination;
        source_printed = valid_ip-IsPrinted (get raw "src_ip");
        destination_printed = valid_ip-IsPrinted (get raw "dest_ip");
        source_port = both.0;
        destination_port = both.1;
        no_nulls = without_nulls-no_nulls metadata;
      }

  normalize_fields-IsNormal :
      (raw : Fields) {e : Event}
      → normalize_fields readers calendar event_id_from raw ≡ ok e
      → IsNormal readers.ipaddress e
  unfolding normalize_fields
  normalize_fields-IsNormal raw h =
      let event_type = text_or readers.floats readers.texts (get raw "event_type") "flow" in
      let (timestamp, checked, rest) =
        >>=-eq-ok (check_record readers calendar event_id_from event_type raw) _ h in
      let (ports, found, after) = >>=-eq-ok (ports_of readers calendar event_id_from raw) _ rest in
      let (metadata, read, made) = >>=-eq-ok (metadata_of readers event_type raw) _ after in
      subst (IsNormal readers.ipaddress) (ok-injective made) (
        event_of-IsNormal event_type timestamp ports raw metadata checked
          (ports_of-IsPort raw found))

  -- Every event that is returned has a supported type, both addresses unless it is a statistic, each
  -- address as the library prints it, ports of 16 bits, and no missing value in its metadata.
  pub normalize_eve-IsNormal :
      (raw : Value) {e : Event}
      → normalize_eve readers calendar event_id_from raw ≡ ok e
      → IsNormal readers.ipaddress e
  unfolding normalize_eve
  normalize_eve-IsNormal (obj raw) h = normalize_fields-IsNormal raw h
  normalize_eve-IsNormal null h = absurd (ground (arith, h))
  normalize_eve-IsNormal (bool b) h = absurd (ground (arith, h))
  normalize_eve-IsNormal (int n) h = absurd (ground (arith, h))
  normalize_eve-IsNormal (float x) h = absurd (ground (arith, h))
  normalize_eve-IsNormal (str s) h = absurd (ground (arith, h))
  normalize_eve-IsNormal (arr xs) h = absurd (ground (arith, h))
