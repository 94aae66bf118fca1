-- ===== src/Normalizer/Metadata.antt =====
-- The metadata that normalizers/suricata.py takes from each type of record.
use Prim.Native.String.{◌++◌ as concat}
use pondsecndr.Prelude.{
  ℕ, zero, suc, String, Bool, List, [], ◌∷◌, ◌++◌, length, any, contains, starts_with, str_eq,
  lower, is_empty, is_in, if◌then◌else◌,
}
use pondsecndr.Prelude.Int.{pos, ◌+ℤ◌}
use pondsecndr.Python.Float.{Floats}
use pondsecndr.Python.Ipaddress.{Ipaddress}
use pondsecndr.Python.Result.{Result, ok, raise, ◌>>=◌, type_error, attribute_error}
use pondsecndr.Python.Value.{
  Value, null, bool, int, float, str, obj, arr, Fields, end, field, elements, Texts, get, has,
  truthy, text, to_float,
}
use pondsecndr.Detection.Explain.{dict, items}

-- `url_path` is the path of `urlsplit`, which raises `ValueError` for some texts.
pub record Readers : Type 0 where
  pub floats : Floats
  pub texts : Texts
  pub ipaddress : Ipaddress
  pub url_path : String → Result String

-- `text[:n]`
unfoldable pub first_chars : ℕ → String → String
first_chars zero s = ""
first_chars (suc n) String.[] = ""
first_chars (suc n) (String.◌∷◌ c s) = String.◌∷◌ c (first_chars n s)

abbrev pub sensitive_http_headers : List String
sensitive_http_headers = "authorization" ∷ "cookie" ∷ "set-cookie" ∷ "proxy-authorization" ∷ []

-- The loop over the headers.
unfoldable pub plain_headers : Fields → Fields
plain_headers end = end
plain_headers (field k v rest) =
    if is_in (lower k) sensitive_http_headers
    then plain_headers rest
    else field k v (plain_headers rest)

module _ (readers : Readers) where
  abbrev pub is_true : Value → Bool
  is_true = truthy readers.floats readers.texts

  -- `a or b`
  abbrev pub or_value : Value → Value → Value
  or_value a b = if is_true a then a else b

  -- `raw.get(key) or {}`, of which the code calls `get` next.
  unfoldable pub section_at : Fields → String → Result Fields
  section_at raw key = elim (or_value (get raw key) (obj end)) [
    | obj fields ↦ ok fields
    | _ ↦ raise attribute_error
  ]

  -- The entries of these keys under these names.
  abbrev pub picked : Fields → List (String × String) → List (String × Value)
  picked fields [] = []
  picked fields ((name, key) ∷ rest) = (name, get fields key) ∷ picked fields rest

  abbrev as_number : Value → Value
  as_number (bool b) = int (pos (if b then 1 else 0))
  as_number v = v

  float_plus : Value → Value → Result Value
  float_plus a b = to_float readers.floats readers.texts a >>= λ x.
      to_float readers.floats readers.texts b >>= λ y. ok (float (readers.floats.add x y))

  -- `a + b` of values that are no Booleans.
  unfoldable pub plus_numbers : Value → Value → Result Value
  unfolding float_plus
  plus_numbers (int a) (int b) = ok (int (a +ℤ b))
  plus_numbers (int a) (float y) = float_plus (int a) (float y)
  plus_numbers (float x) (int b) = float_plus (float x) (int b)
  plus_numbers (float x) (float y) = float_plus (float x) (float y)
  plus_numbers (str s) (str t) = ok (str (concat s t))
  plus_numbers (arr a) (arr b) = ok (arr (items (elements a ++ elements b)))
  plus_numbers _ _ = raise type_error

  -- `(d.get(k) or 0) + (d.get(l) or 0)`
  unfoldable pub sum_at : Fields → String → String → Result Value
  unfolding plus_numbers
  sum_at fields k l =
      plus_numbers (as_number (or_value (get fields k) (int (pos 0))))
        (as_number (or_value (get fields l) (int (pos 0))))

  abbrev or_zero_at : Fields → String → Value
  or_zero_at fields key = or_value (get fields key) (int (pos 0))

  -- `_flow_metadata`
  unfoldable pub flow_metadata : Fields → Result (List (String × Value))
  unfolding section_at sum_at
  flow_metadata raw = section_at raw "flow" >>= λ flow.
      sum_at flow "pkts_toserver" "pkts_toclient" >>= λ packets.
      sum_at flow "bytes_toclient" "bytes_toserver" >>= λ bytes. ok (
        ("app_proto", get raw "app_proto")
        ∷ ("flow_id", get raw "flow_id")
        ∷ ("flow_state", get flow "state")
        ∷ ("flow_reason", get flow "reason")
        ∷ ("duration", get flow "age")
        ∷ ("packets_out", or_zero_at flow "pkts_toserver")
        ∷ ("packets_in", or_zero_at flow "pkts_toclient")
        ∷ ("packet_count", packets)
        ∷ ("bytes_in", or_zero_at flow "bytes_toclient")
        ∷ ("bytes_out", or_zero_at flow "bytes_toserver")
        ∷ ("byte_count", bytes)
        ∷ [])

  abbrev count_items : Value → ℕ
  count_items (arr answers) = length (elements answers)
  count_items _ = 0

  -- `_dns_metadata`
  unfoldable pub dns_metadata : Fields → Result (List (String × Value))
  unfolding section_at
  dns_metadata raw = section_at raw "dns" >>= λ dns. ok (
      ("rrname", or_value (get dns "rrname") (get dns "query"))
      ∷ ("rrtype", get dns "rrtype")
      ∷ ("rcode", get dns "rcode")
      ∷ ("answers_count", int (pos (count_items (get dns "answers"))))
      ∷ ("tx_id", get dns "tx_id")
      ∷ [])

  -- `_tls_metadata`
  unfoldable pub tls_metadata : Fields → Result (List (String × Value))
  unfolding section_at
  tls_metadata raw = section_at raw "tls" >>= λ tls. ok (
      picked tls (("sni", "sni") ∷ ("subject", "subject") ∷ ("issuerdn", "issuerdn") ∷ [])
      ++ (
        "fingerprint",
        or_value (get tls "fingerprint") (or_value (get tls "ja3") (get tls "ja3s")),
      )
        ∷ picked tls
            (("version", "version") ∷ ("notbefore", "notbefore") ∷ ("notafter", "notafter") ∷ []))

  -- `_safe_queryless_url`
  unfoldable pub safe_queryless_url : Value → Result Value
  unfolding first_chars
  safe_queryless_url value =
      let shown = text readers.floats readers.texts value in
      let url =
        if contains shown "://"
        then shown
        else concat "http://placeholder.local"
            (if starts_with shown "/" then shown else concat "/" shown) in
      if is_true value
      then (readers.url_path url >>= λ path.
          ok (str (first_chars 256 (if is_empty path then "/" else path))))
      else ok null

  abbrev headers_of : Value → Fields
  headers_of (obj headers) = headers
  headers_of _ = end

  -- `_http_metadata`
  unfoldable pub http_metadata : Fields → Result (List (String × Value))
  unfolding section_at safe_queryless_url plain_headers
  http_metadata raw = section_at raw "http" >>= λ http.
      safe_queryless_url (get http "url") >>= λ url_path. ok (
        ("hostname", get http "hostname")
        ∷ ("http_method", get http "http_method")
        ∷ ("url_path", url_path)
        ∷ ("status", get http "status")
        ∷ ("protocol", get http "protocol")
        ∷ ("length", get http "length")
        ∷ ("headers", obj (plain_headers (headers_of (get http "headers"))))
        ∷ (
          "has_redacted_fields",
          bool (any (has http) ("http_user_agent" ∷ "http_refer" ∷ "cookies" ∷ [])),
        )
        ∷ [])

  -- `_alert_metadata`
  unfoldable pub alert_metadata : Fields → Result (List (String × Value))
  unfolding section_at
  alert_metadata raw = section_at raw "alert" >>= λ alert. ok (
      picked alert (
        ("signature_id", "signature_id")
        ∷ ("signature", "signature")
        ∷ ("category", "category")
        ∷ ("severity", "severity")
        ∷ ("gid", "gid")
        ∷ ("rev", "rev")
        ∷ ("action", "action")
        ∷ []))

  -- `_drop_metadata`
  unfoldable pub drop_metadata : Fields → Result (List (String × Value))
  unfolding section_at alert_metadata
  drop_metadata raw = alert_metadata raw >>= λ alert. section_at raw "drop" >>= λ drop. ok (
      alert
      ++ picked drop (
          ("drop_reason", "reason")
          ∷ ("packet_length", "len")
          ∷ ("tcp_syn", "syn")
          ∷ ("tcp_ack", "ack")
          ∷ ("tcp_rst", "rst")
          ∷ ("tcp_fin", "fin")
          ∷ []))

  unfoldable pub fileinfo_metadata : Fields → Result (List (String × Value))
  unfolding section_at
  fileinfo_metadata raw = section_at raw "fileinfo" >>= λ info. ok (
      ("filename_seen", bool (is_true (get info "filename")))
      ∷ picked info (("size", "size") ∷ ("state", "state") ∷ []))

  unfoldable pub anomaly_metadata : Fields → Result (List (String × Value))
  unfolding section_at
  anomaly_metadata raw = section_at raw "anomaly" >>= λ anomaly.
      ok (picked anomaly (("type", "type") ∷ ("event", "event") ∷ ("layer", "layer") ∷ []))

  unfoldable pub stats_metadata : Fields → Result (List (String × Value))
  unfolding section_at
  stats_metadata raw = section_at raw "stats" >>= λ stats. ok (
      ("uptime", get stats "uptime")
      ∷ ("capture", (if has stats "capture" then get stats "capture" else obj end))
      ∷ [])

  unfoldable pub typed_metadata : (event_type : String) → Fields → Result (List (String × Value))
  unfolding flow_metadata dns_metadata tls_metadata http_metadata alert_metadata drop_metadata
      fileinfo_metadata anomaly_metadata stats_metadata
  typed_metadata event_type raw =
      if str_eq event_type "flow"
      then flow_metadata raw
      else if str_eq event_type "dns"
      then dns_metadata raw
      else if str_eq event_type "tls"
      then tls_metadata raw
      else if str_eq event_type "http"
      then http_metadata raw
      else if str_eq event_type "alert"
      then alert_metadata raw
      else if str_eq event_type "drop"
      then drop_metadata raw
      else if str_eq event_type "fileinfo"
      then fileinfo_metadata raw
      else if str_eq event_type "anomaly"
      then anomaly_metadata raw
      else if str_eq event_type "stats"
      then stats_metadata raw
      else ok []

  unfoldable pub metadata_of : (event_type : String) → Fields → Result Fields
  unfolding typed_metadata
  metadata_of event_type raw = typed_metadata event_type raw >>= λ typed.
      ok
        (dict (("event_source", str "suricata") ∷ ("community_id", get raw "community_id") ∷ typed))
