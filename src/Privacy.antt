-- ===== src/Privacy.antt =====
-- privacy.py: what leaves the database in an export. `digest` is the first twelve digits of the SHA-256
-- of a text.
pub mod Clean
use Prim.Native.String.{◌++◌ as concat}
use pondsecndr.Prelude.{
  String, Bool, true, false, not, ◌&&◌, List, [], ◌∷◌, Option, none, some, any, contains, is_empty,
  lower, if◌then◌else◌,
}
use pondsecndr.Python.Ipaddress.{v4, v6, Version, Address, Network, Ipaddress}
use pondsecndr.Python.Value.{Value, str, obj, arr, Fields, end, field, Items, empty, item}

abbrev pub sensitive_field_parts : List String
sensitive_field_parts =
    "password" ∷ "passwd" ∷ "secret" ∷ "private_key" ∷ "authorization" ∷ "cookie" ∷ "token" ∷ []

-- `_is_sensitive_key`
unfoldable pub is_sensitive_key : String → Bool
is_sensitive_key key = any (contains (lower key)) sensitive_field_parts

-- `key_name and _is_sensitive_key(key_name)`
unfoldable pub is_hidden : Option String → Bool
is_hidden none = false
is_hidden (some key) = not (is_empty key) && is_sensitive_key key

abbrev pub redacted : Value
redacted = str "[redacted]"

abbrev pub is_found {ℓ} : {A : Type ℓ} → Option A → Bool
is_found none = false
is_found (some a) = true

module _ (lib : Ipaddress) (digest : String → String) where
  -- `_looks_like_address`
  unfoldable pub looks_like_address : String → Bool
  looks_like_address value =
      if contains value "/"
      then is_found (lib.ip_network value)
      else is_found (lib.ip_address value)

  abbrev version_text : Version → String
  version_text v4 = "ip4"
  version_text v6 = "ip6"

  network_kind : Option Network → Option String
  network_kind none = none
  network_kind (some n) = some (concat (version_text n.version) "-net")

  address_kind : Option Address → Option String
  address_kind none = none
  address_kind (some a) = some (version_text a.version)

  marked : Option String → String → String
  marked none text = text
  marked (some kind) text = concat "anon-" (concat kind (concat "-" (digest text)))

  unfoldable pub anonymize_address : String → String
  unfolding marked network_kind address_kind
  anonymize_address text =
      marked
        (if contains text "/"
          then network_kind (lib.ip_network text)
          else address_kind (lib.ip_address text))
        text

  unfoldable pub sanitize_text : (anonymize : Bool) → String → String
  unfolding looks_like_address anonymize_address
  sanitize_text anonymize s = if anonymize && looks_like_address s then anonymize_address s else s

  -- `sanitize_for_export`, with the entries of a dictionary and the elements of a list.
  unfoldable mutual
    unfolding sanitize_text is_hidden

    pub sanitize_for_export : (anonymize : Bool) (key_name : Option String) → Value → Value
    sanitize_for_export anonymize key_name (obj fields) =
        if is_hidden key_name then redacted else obj (sanitize_fields anonymize fields)
    sanitize_for_export anonymize key_name (arr items) =
        if is_hidden key_name then redacted else arr (sanitize_items anonymize key_name items)
    sanitize_for_export anonymize key_name (str s) =
        if is_hidden key_name then redacted else str (sanitize_text anonymize s)
    sanitize_for_export anonymize key_name value = if is_hidden key_name then redacted else value

    pub sanitize_fields : (anonymize : Bool) → Fields → Fields
    sanitize_fields anonymize end = end
    sanitize_fields anonymize (field k v rest) =
        field k (sanitize_for_export anonymize (some k) v) (sanitize_fields anonymize rest)

    pub sanitize_items : (anonymize : Bool) (key_name : Option String) → Items → Items
    sanitize_items anonymize key_name empty = empty
    sanitize_items anonymize key_name (item v rest) =
        item (sanitize_for_export anonymize key_name v) (sanitize_items anonymize key_name rest)
