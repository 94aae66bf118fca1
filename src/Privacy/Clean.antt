-- ===== src/Privacy/Clean.antt =====
-- What the values of an export of privacy.py cannot hold.
use Prim.Native.String.{◌++◌ as concat}
use pondsecndr.Prelude.{
  ◌≡◌, refl, arith, ap, ◌∙◌, inl, inr, String, Bool, true, false, not, ◌&&◌, ◌||◌, Option, none,
  some, any, contains, lower, starts_with, str_eq, Bool-cases, if◌then◌else◌,
}
use pondsecndr.Python.Ipaddress.{Ipaddress, Network, Address}
use pondsecndr.Python.Value.{
  Value, null, bool, int, float, str, obj, arr, Fields, end, field, Items, empty, item,
}
use pondsecndr.Privacy.{
  is_sensitive_key, is_hidden, redacted, is_found, looks_like_address, anonymize_address,
  network_kind, address_kind, marked, sanitize_text, sanitize_for_export, sanitize_fields,
  sanitize_items,
}

-- What the code relies on of the library: its marks are no addresses.
pub record IgnoresMarks (lib : Ipaddress) (digest : String → String) : Type 0 where
  pub redaction : looks_like_address lib digest "[redacted]" ≡ false
  pub marks : (s : String) → looks_like_address lib digest (concat "anon-" s) ≡ false

abbrev pub is_redacted : Value → Bool
is_redacted (str s) = str_eq s "[redacted]"
is_redacted _ = false

module _ (lib : Ipaddress) (digest : String → String) where
  -- No text value is an address, and what stands under a sensitive key is redacted. The keys of
  -- dictionaries are not looked at.
  unfoldable mutual
    pub is_clean : Value → Bool
    is_clean (obj fields) = is_clean_fields fields
    is_clean (arr items) = is_clean_items items
    is_clean (str s) = not (looks_like_address lib digest s)
    is_clean value = true

    pub is_clean_fields : Fields → Bool
    is_clean_fields end = true
    is_clean_fields (field k v rest) =
        (not (is_sensitive_key k) || is_redacted v) && is_clean v && is_clean_fields rest

    pub is_clean_items : Items → Bool
    is_clean_items empty = true
    is_clean_items (item v rest) = is_clean v && is_clean_items rest

is_hidden-some : (key : String) → is_hidden (some key) ≡ is_sensitive_key key
unfolding is_hidden is_sensitive_key any contains lower starts_with
is_hidden-some String.[] = refl
is_hidden-some (String.◌∷◌ c s) = refl

true_and : (a b c : Bool) → a ≡ true → b ≡ true → c ≡ true → (a && b && c) ≡ true
true_and a b c h k l = ground (arith, h, k, l)

module _ (lib : Ipaddress) (digest : String → String) where
  network_kind-found : (n : Option Network) → is_found (network_kind lib digest n) ≡ is_found n
  unfolding network_kind
  network_kind-found none = refl
  network_kind-found (some n) = refl

  address_kind-found : (a : Option Address) → is_found (address_kind lib digest a) ≡ is_found a
  unfolding address_kind
  address_kind-found none = refl
  address_kind-found (some a) = refl

  looks_lem :
      (s : String)
      → looks_like_address lib digest s
        ≡ (if contains s "/" then is_found (lib.ip_network s) else is_found (lib.ip_address s))
  unfolding looks_like_address
  looks_lem s = refl

  sanitize-hidden :
      (anonymize : Bool) (key : Option String) (v : Value)
      → is_hidden key ≡ true
      → sanitize_for_export lib digest anonymize key v ≡ redacted
  unfolding sanitize_for_export
  sanitize-hidden anonymize key (obj fields) h = rw h refl
  sanitize-hidden anonymize key (arr items) h = rw h refl
  sanitize-hidden anonymize key (str s) h = rw h refl
  sanitize-hidden anonymize key null h = rw h refl
  sanitize-hidden anonymize key (bool b) h = rw h refl
  sanitize-hidden anonymize key (int n) h = rw h refl
  sanitize-hidden anonymize key (float x) h = rw h refl

  -- What stands under a sensitive key is redacted.
  sanitize-redacted :
      (anonymize : Bool) (key : String) (v : Value)
      → (not (is_sensitive_key key)
          || is_redacted (sanitize_for_export lib digest anonymize (some key) v))
        ≡ true
  sanitize-redacted anonymize key v = elim (Bool-cases (is_sensitive_key key)) [
    | inl sensitive ↦
        rw (sensitive, sanitize-hidden anonymize (some key) v (is_hidden-some key ∙ sensitive)) refl
    | inr plain ↦ rw plain refl
  ]

module _ (lib : Ipaddress) (digest : String → String) (ignores : IgnoresMarks lib digest) where
  marked-looks :
      (kind : Option String) (s : String)
      → (is_found kind ≡ false → looks_like_address lib digest s ≡ false)
      → looks_like_address lib digest (marked lib digest kind s) ≡ false
  unfolding marked
  marked-looks none s h = h refl
  marked-looks (some kind) s h = ignores.marks _

  -- A text that was an address is none any more.
  anonymize_address-looks :
      (s : String) → looks_like_address lib digest (anonymize_address lib digest s) ≡ false
  unfolding anonymize_address
  anonymize_address-looks s = marked-looks _ s λ h. elim (Bool-cases (contains s "/")) [
    | inl slash ↦
        ground (
          arith,
          h,
          slash,
          looks_lem lib digest s,
          network_kind-found lib digest (lib.ip_network s),
        )
    | inr plain ↦
        ground (
          arith,
          h,
          plain,
          looks_lem lib digest s,
          address_kind-found lib digest (lib.ip_address s),
        )
  ]

  sanitize_text-looks :
      (s : String) → looks_like_address lib digest (sanitize_text lib digest true s) ≡ false
  unfolding sanitize_text
  sanitize_text-looks s = elim (Bool-cases (looks_like_address lib digest s)) [
    | inl address ↦ rw address (anonymize_address-looks s)
    | inr other ↦ rw other other
  ]

  sanitize_text-clean :
      (s : String) → is_clean lib digest (str (sanitize_text lib digest true s)) ≡ true
  unfolding is_clean
  sanitize_text-clean s = ap not (sanitize_text-looks s)

  hidden-clean :
      (key : Option String) (v : Value)
      → is_clean lib digest v ≡ true
      → is_clean lib digest (if is_hidden key then redacted else v) ≡ true
  unfolding is_clean
  hidden-clean key v h = elim (Bool-cases (is_hidden key)) [
    | inl hidden ↦ rw hidden (ap not ignores.redaction)
    | inr shown ↦ rw shown h
  ]

  mutual
    unfolding sanitize_for_export is_clean

    sanitize-is_clean :
        (key : Option String) (v : Value)
        → is_clean lib digest (sanitize_for_export lib digest true key v) ≡ true
    sanitize-is_clean key (obj fields) = hidden-clean key _ (sanitize_fields-is_clean fields)
    sanitize-is_clean key (arr items) = hidden-clean key _ (sanitize_items-is_clean key items)
    sanitize-is_clean key (str s) = hidden-clean key _ (sanitize_text-clean s)
    sanitize-is_clean key null = hidden-clean key _ refl
    sanitize-is_clean key (bool b) = hidden-clean key _ refl
    sanitize-is_clean key (int n) = hidden-clean key _ refl
    sanitize-is_clean key (float x) = hidden-clean key _ refl

    sanitize_fields-is_clean :
        (fields : Fields)
        → is_clean_fields lib digest (sanitize_fields lib digest true fields) ≡ true
    sanitize_fields-is_clean end = refl
    sanitize_fields-is_clean (field k v rest) =
        true_and _ _ _ (sanitize-redacted lib digest true k v) (sanitize-is_clean (some k) v)
          (sanitize_fields-is_clean rest)

    sanitize_items-is_clean :
        (key : Option String) (items : Items)
        → is_clean_items lib digest (sanitize_items lib digest true key items) ≡ true
    sanitize_items-is_clean key empty = refl
    sanitize_items-is_clean key (item v rest) =
        ground (arith, sanitize-is_clean key v, sanitize_items-is_clean key rest)

  -- An anonymised export, however deep it is nested, has no text value that is an address or a
  -- network, and has `[redacted]` under every key that names a secret. It says nothing of the keys
  -- themselves, which stay as they are.
  pub sanitize_for_export-is_clean :
      (key : Option String) (v : Value)
      → is_clean lib digest (sanitize_for_export lib digest true key v) ≡ true
  sanitize_for_export-is_clean = sanitize-is_clean

  -- `sanitize_text` has nothing to do on its own result.
  sanitize_text_idem :
      (s : String)
      → sanitize_text lib digest true (sanitize_text lib digest true s)
        ≡ sanitize_text lib digest true s
  unfolding sanitize_text
  sanitize_text_idem s = let done = sanitize_text-looks s in ground (arith, done)

  mutual
    unfolding sanitize_for_export

    sanitize_idem :
        (key : Option String) (v : Value)
        → sanitize_for_export lib digest true key (sanitize_for_export lib digest true key v)
          ≡ sanitize_for_export lib digest true key v
    sanitize_idem key (obj fields) = elim (Bool-cases (is_hidden key)) [
      | inl hidden ↦ rw (hidden, hidden) refl
      | inr shown ↦ rw (shown, shown) (ap obj (sanitize_fields_idem fields))
    ]
    sanitize_idem key (arr items) = elim (Bool-cases (is_hidden key)) [
      | inl hidden ↦ rw (hidden, hidden) refl
      | inr shown ↦ rw (shown, shown) (ap arr (sanitize_items_idem key items))
    ]
    sanitize_idem key (str s) = elim (Bool-cases (is_hidden key)) [
      | inl hidden ↦ rw (hidden, hidden) refl
      | inr shown ↦ rw (shown, shown) (ap str (sanitize_text_idem s))
    ]
    sanitize_idem key null = ground arith
    sanitize_idem key (bool b) = ground arith
    sanitize_idem key (int n) = ground arith
    sanitize_idem key (float x) = ground arith

    sanitize_fields_idem :
        (fields : Fields)
        → sanitize_fields lib digest true (sanitize_fields lib digest true fields)
          ≡ sanitize_fields lib digest true fields
    sanitize_fields_idem end = refl
    sanitize_fields_idem (field k v rest) =
        rw (sanitize_idem (some k) v, sanitize_fields_idem rest) refl

    sanitize_items_idem :
        (key : Option String) (items : Items)
        → sanitize_items lib digest true key (sanitize_items lib digest true key items)
          ≡ sanitize_items lib digest true key items
    sanitize_items_idem key empty = refl
    sanitize_items_idem key (item v rest) =
        rw (sanitize_idem key v, sanitize_items_idem key rest) refl

  -- An anonymised export that is anonymised again stays as it is.
  pub sanitize_for_export_idem :
      (key : Option String) (v : Value)
      → sanitize_for_export lib digest true key (sanitize_for_export lib digest true key v)
        ≡ sanitize_for_export lib digest true key v
  sanitize_for_export_idem = sanitize_idem
