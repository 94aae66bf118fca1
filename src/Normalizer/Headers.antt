-- ===== src/Normalizer/Headers.antt =====
-- Which headers of a request stay in the events of normalizers/suricata.py.
use pondsecndr.Prelude.{
  ℕ, Option, ◌≡◌, refl, arith, sym, subst, inl, inr, String, Bool, true, false, List, [], ◌∷◌, ◌++◌,
  any, is_in, lower, str_eq, ◌||◌, eq_iff, Bool-cases, if◌then◌else◌,
}
use pondsecndr.Python.Result.{Result, ok, raise, ◌>>=◌, ok-injective, >>=-eq-ok}
use pondsecndr.Python.Value.{
  Value, null, bool, int, float, str, obj, arr, Fields, end, field, get, has, as_dict, text_or,
}
use pondsecndr.Detection.Explain.{dict}
use pondsecndr.Schema.{Event, Calendar}
use pondsecndr.Normalizer.Metadata.{
  Readers, sensitive_http_headers, plain_headers, section_at, sum_at, safe_queryless_url,
  flow_metadata, dns_metadata, tls_metadata, http_metadata, alert_metadata, drop_metadata,
  fileinfo_metadata, anomaly_metadata, stats_metadata, typed_metadata, metadata_of,
}
use pondsecndr.Normalizer.{
  without_nulls, check_record, ports_of, event_of, with_id, normalize_fields, normalize_eve,
}

abbrev is_sensitive : String → Bool
is_sensitive header = is_in (lower header) sensitive_http_headers

-- The headers that carry a login or a session by the standard of HTTP, in whatever case.
unfoldable pub is_credential : String → Bool
is_credential header =
    let name = lower header in
    str_eq name "authorization"
    || str_eq name "proxy-authorization"
    || str_eq name "cookie"
    || str_eq name "set-cookie"

-- The list of the code has all four.
credential-sensitive : (header : String) → is_credential header ≡ true → is_sensitive header ≡ true
unfolding is_credential is_in
credential-sensitive header h = ground (arith, h)

-- A dictionary of headers without these.
pub IsRedacted : Value → Type 0
IsRedacted headers =
    (header : String) → is_credential header ≡ true → has (as_dict headers) header ≡ false

plain_headers-IsRedacted : (headers : Fields) → IsRedacted (obj (plain_headers headers))
unfolding IsRedacted plain_headers has as_dict
plain_headers-IsRedacted end header h = refl
plain_headers-IsRedacted (field k v rest) header h = elim (Bool-cases (is_sensitive k)) [
  | inl sensitive ↦ rw sensitive (plain_headers-IsRedacted rest header h)
  | inr plain ↦ rw plain (elim (Bool-cases (str_eq k header)) [
    | inl same ↦ absurd (
        let hit =
          credential-sensitive k
            (subst (λ s. is_credential s ≡ true) (sym ((eq_iff k header).0 same)) h) in
        ground (arith, plain, hit))
    | inr other ↦ rw other (plain_headers-IsRedacted rest header h)
  ])
]

no_headers : IsRedacted null
unfolding IsRedacted as_dict has
no_headers header h = refl

abbrev names_headers : List (String × Value) → Bool
names_headers metadata = any (λ (k, v). str_eq k "headers") metadata

-- The value of `headers` after the missing values are taken out.
abbrev headers_in : List (String × Value) → Value
headers_in metadata = get (without_nulls (dict metadata)) "headers"

headers_in-none :
    (metadata : List (String × Value)) → names_headers metadata ≡ false → headers_in metadata ≡ null
unfolding without_nulls get any
headers_in-none [] h = refl
headers_in-none ((k, v) ∷ rest) h = ground (arith, h, headers_in-none rest)

headers_in-append :
    (before rest : List (String × Value))
    → names_headers before ≡ false
    → headers_in (before ++ rest) ≡ headers_in rest
unfolding without_nulls get any
headers_in-append [] rest h = refl
headers_in-append ((k, v) ∷ before) rest h = ground (arith, h, headers_in-append before rest)

-- What a reading of metadata gives, if it does not raise, has only harmless headers.
Redacted : Result (List (String × Value)) → Type 0
Redacted (ok metadata) = IsRedacted (headers_in metadata)
Redacted (raise e) = Unit

bind-Redacted {ℓ} :
    {A : Type ℓ} (r : Result A) (f : A → Result (List (String × Value)))
    → ((a : A) → Redacted (f a))
    → Redacted (r >>= f)
unfolding Redacted
bind-Redacted (ok a) f h = h a
bind-Redacted (raise e) f h = tt

unnamed :
    (metadata : List (String × Value)) → names_headers metadata ≡ false → Redacted (ok metadata)
unfolding Redacted
unnamed metadata h = subst IsRedacted (sym (headers_in-none metadata h)) no_headers

chain-Redacted {ℓ} :
    {A : Type ℓ} (r : Result A) (f : A → List (String × Value))
    (g : List (String × Value) → Result (List (String × Value)))
    → ((a : A) → Redacted (g (f a)))
    → Redacted ((r >>= λ a. ok (f a)) >>= g)
unfolding Redacted
chain-Redacted (ok a) f g h = h a
chain-Redacted (raise e) f g h = tt

kept :
    (before : List (String × Value)) (headers : Fields) (rest : List (String × Value))
    → names_headers before ≡ false
    → Redacted (ok (before ++ ("headers", obj (plain_headers headers)) ∷ rest))
unfolding Redacted without_nulls get
kept before headers rest h =
    subst IsRedacted
      (sym (headers_in-append before (("headers", obj (plain_headers headers)) ∷ rest) h))
      (plain_headers-IsRedacted headers)

if-Redacted :
    (b : Bool) (r s : Result (List (String × Value)))
    → Redacted r
    → Redacted s
    → Redacted (if b then r else s)
if-Redacted true r s h k = h
if-Redacted false r s h k = k

module _ (readers : Readers) where
  flow-Redacted : (raw : Fields) → Redacted (flow_metadata readers raw)
  unfolding flow_metadata any
  flow-Redacted raw = bind-Redacted (section_at readers raw "flow") _ λ flow.
      bind-Redacted (sum_at readers flow "pkts_toserver" "pkts_toclient") _ λ packets.
        bind-Redacted (sum_at readers flow "bytes_toclient" "bytes_toserver") _
          λ bytes. unnamed _ refl

  dns-Redacted : (raw : Fields) → Redacted (dns_metadata readers raw)
  unfolding dns_metadata any
  dns-Redacted raw = bind-Redacted (section_at readers raw "dns") _ λ dns. unnamed _ refl

  tls-Redacted : (raw : Fields) → Redacted (tls_metadata readers raw)
  unfolding tls_metadata any
  tls-Redacted raw = bind-Redacted (section_at readers raw "tls") _ λ tls. unnamed _ refl

  alert-Redacted : (raw : Fields) → Redacted (alert_metadata readers raw)
  unfolding alert_metadata any
  alert-Redacted raw = bind-Redacted (section_at readers raw "alert") _ λ alert. unnamed _ refl

  drop-Redacted : (raw : Fields) → Redacted (drop_metadata readers raw)
  unfolding drop_metadata alert_metadata any
  drop-Redacted raw =
      chain-Redacted (section_at readers raw "alert") _ _
        λ alert. bind-Redacted (section_at readers raw "drop") _ λ drop. unnamed _ refl

  http-Redacted : (raw : Fields) → Redacted (http_metadata readers raw)
  unfolding http_metadata any Redacted without_nulls get
  http-Redacted raw = bind-Redacted (section_at readers raw "http") _ λ http.
      bind-Redacted (safe_queryless_url readers (get http "url")) _ λ url_path.
        kept
          (("hostname", get http "hostname")
            ∷ ("http_method", get http "http_method")
            ∷ ("url_path", url_path)
            ∷ ("status", get http "status")
            ∷ ("protocol", get http "protocol")
            ∷ ("length", get http "length")
            ∷ [])
          _
          ((
            "has_redacted_fields",
            bool (any (has http) ("http_user_agent" ∷ "http_refer" ∷ "cookies" ∷ [])),
          )
            ∷ [])
          refl

  fileinfo-Redacted : (raw : Fields) → Redacted (fileinfo_metadata readers raw)
  unfolding fileinfo_metadata any
  fileinfo-Redacted raw = bind-Redacted (section_at readers raw "fileinfo") _ λ info. unnamed _ refl

  anomaly-Redacted : (raw : Fields) → Redacted (anomaly_metadata readers raw)
  unfolding anomaly_metadata any
  anomaly-Redacted raw =
      bind-Redacted (section_at readers raw "anomaly") _ λ anomaly. unnamed _ refl

  stats-Redacted : (raw : Fields) → Redacted (stats_metadata readers raw)
  unfolding stats_metadata any
  stats-Redacted raw = bind-Redacted (section_at readers raw "stats") _ λ stats. unnamed _ refl

  typed-Redacted :
      (event_type : String) (raw : Fields) → Redacted (typed_metadata readers event_type raw)
  unfolding typed_metadata any
  typed-Redacted event_type raw = if-Redacted _ _ _ (flow-Redacted raw) (
      if-Redacted _ _ _ (dns-Redacted raw) (
        if-Redacted _ _ _ (tls-Redacted raw) (
          if-Redacted _ _ _ (http-Redacted raw) (
            if-Redacted _ _ _ (alert-Redacted raw) (
              if-Redacted _ _ _ (drop-Redacted raw) (
                if-Redacted _ _ _ (fileinfo-Redacted raw) (
                  if-Redacted _ _ _ (anomaly-Redacted raw)
                    (if-Redacted _ _ _ (stats-Redacted raw) (unnamed [] refl)))))))))

  typed_ok :
      (event_type : String) (raw : Fields) (typed : List (String × Value))
      → typed_metadata readers event_type raw ≡ ok typed
      → IsRedacted (headers_in typed)
  unfolding Redacted
  typed_ok event_type raw typed h = subst Redacted h (typed-Redacted event_type raw)

module _ (readers : Readers) (calendar : Calendar) (event_id_from : Event → String) where
  metadata_of-IsRedacted :
      (event_type timestamp : String) (ports : Option ℕ × Option ℕ) (raw metadata : Fields)
      → metadata_of readers event_type raw ≡ ok metadata
      → IsRedacted (
          get
            (with_id readers calendar event_id_from (
              event_of readers calendar event_id_from event_type timestamp ports raw
                metadata)).metadata
            "headers")
  unfolding metadata_of with_id event_of any
  metadata_of-IsRedacted event_type timestamp ports raw metadata h =
      let (typed, read, made) = >>=-eq-ok (typed_metadata readers event_type raw) _ h in
      subst (λ m. IsRedacted (get (without_nulls m) "headers")) (ok-injective made)
        (subst IsRedacted
          (sym (
            headers_in-append
              (("event_source", str "suricata") ∷ ("community_id", get raw "community_id") ∷ [])
              typed refl))
          (typed_ok readers event_type raw typed read))

  normalize_fields-IsRedacted :
      (raw : Fields) {e : Event}
      → normalize_fields readers calendar event_id_from raw ≡ ok e
      → IsRedacted (get e.metadata "headers")
  unfolding normalize_fields
  normalize_fields-IsRedacted raw h =
      let event_type = text_or readers.floats readers.texts (get raw "event_type") "flow" in
      let (timestamp, checked, rest) =
        >>=-eq-ok (check_record readers calendar event_id_from event_type raw) _ h in
      let (ports, found, after) = >>=-eq-ok (ports_of readers calendar event_id_from raw) _ rest in
      let (metadata, read, made) = >>=-eq-ok (metadata_of readers event_type raw) _ after in
      subst (λ e. IsRedacted (get e.metadata "headers")) (ok-injective made)
        (metadata_of-IsRedacted event_type timestamp ports raw metadata read)

  -- No event keeps one of the headers Authorization, Proxy-Authorization, Cookie and Set-Cookie of a
  -- request, in whatever case the name is written.
  pub normalize_eve-IsRedacted :
      (raw : Value) {e : Event}
      → normalize_eve readers calendar event_id_from raw ≡ ok e
      → IsRedacted (get e.metadata "headers")
  unfolding normalize_eve
  normalize_eve-IsRedacted (obj raw) h = normalize_fields-IsRedacted raw h
  normalize_eve-IsRedacted null h = absurd (ground (arith, h))
  normalize_eve-IsRedacted (bool b) h = absurd (ground (arith, h))
  normalize_eve-IsRedacted (int n) h = absurd (ground (arith, h))
  normalize_eve-IsRedacted (float x) h = absurd (ground (arith, h))
  normalize_eve-IsRedacted (str s) h = absurd (ground (arith, h))
  normalize_eve-IsRedacted (arr xs) h = absurd (ground (arith, h))
