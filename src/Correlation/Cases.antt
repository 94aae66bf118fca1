-- ===== src/Correlation/Cases.antt =====
-- The grouping of detections into cases in correlation.py: by entities and time, not by category. A
-- set is kept as the list of what was added. The clock, which stands in for a time stamp that cannot
-- be read, is one moment for the whole call.
pub mod Partition
pub mod Growth
pub mod Links
pub mod Chains
use pondsecndr.Prelude.{
  ℕ, zero, suc, ◌*◌, ◌+◌, ◌^◌, min, max, String, Bool, false, ◌&&◌, ◌||◌, List, [], ◌∷◌, ◌++◌,
  Option, none, some, any, leb, is_in, is_empty, str_eq, contains, starts_with, sort_by,
  if◌then◌else◌,
}
use pondsecndr.Python.Ipaddress.{v4, v6, Address, Network, Ipaddress, contains_address, is_loopback}
use pondsecndr.Detection.{Detection}
use pondsecndr.Response.Policy.{Platform}
use pondsecndr.Response.Target.{range}

-- `INTERNAL_NETWORKS`
unfoldable pub internal_networks : List Network
internal_networks =
    range v4 0x0a00_0000 0x0aff_ffff
    ∷ range v4 0xac10_0000 0xac1f_ffff
    ∷ range v4 0xc0a8_0000 0xc0a8_ffff
    ∷ range v6 (0xfc00 * 2 ^ 112) (0xfdff * 2 ^ 112 + 0xffff_ffff_ffff_ffff_ffff_ffff_ffff)
    ∷ range v6 (0xfe80 * 2 ^ 112) (0xfebf * 2 ^ 112 + 0xffff_ffff_ffff_ffff_ffff_ffff_ffff)
    ∷ []

-- `_text_or_none`
unfoldable pub text_or_none : Option String → Option String
text_or_none none = none
text_or_none (some s) = if is_empty s then none else some s

unfoldable pub internal_number : Option Address → Bool
unfolding internal_networks any
internal_number none = false
internal_number (some a) = any (λ n. contains_address n a) internal_networks || is_loopback a

-- `_is_internal_address`
unfoldable pub is_internal_address : Ipaddress → String → Bool
unfolding internal_number
is_internal_address lib value =
    if is_empty value || contains value "/" || starts_with value "port:"
    then false
    else internal_number (lib.ip_address value)

abbrev pub microseconds : ℕ
microseconds = 1000000

pub record Case : Type 0 where
  pub detections : List Detection
  pub first_seen : ℕ
  pub last_seen : ℕ
  pub source_ips : List String
  pub destination_ips : List String
  pub pairs : List (String × String)
  pub internal_hosts : List String
  pub external_sources : List String

unfoldable pub has_pair : String → String → List (String × String) → Bool
has_pair s d [] = false
has_pair s d ((a, b) ∷ pairs) = str_eq a s && str_eq b d || has_pair s d pairs

module _ (p : Platform) (now : ℕ) where
  -- `_detection_time`
  unfoldable pub detection_time : Detection → ℕ
  detection_time d = elim (p.parse_datetime d.timestamp) [ none ↦ now | some t ↦ t ]

  unfoldable pub add_source : Option String → Case → Case
  add_source none c = c
  add_source (some src) c =
      if is_internal_address p.ipaddress src
      then record c { source_ips = src ∷ c.source_ips; internal_hosts = src ∷ c.internal_hosts }
      else record c { source_ips = src ∷ c.source_ips; external_sources = src ∷ c.external_sources }

  unfoldable pub add_destination : Option String → Case → Case
  add_destination none c = c
  add_destination (some dst) c =
      if is_internal_address p.ipaddress dst
      then record c {
        destination_ips = dst ∷ c.destination_ips;
        internal_hosts = dst ∷ c.internal_hosts;
      }
      else record c { destination_ips = dst ∷ c.destination_ips }

  unfoldable pub add_pair : (source destination : Option String) → Case → Case
  add_pair (some src) (some dst) c = record c { pairs = (src, dst) ∷ c.pairs }
  add_pair _ _ c = c

  -- `_update_case_indexes`
  unfoldable pub update_case_indexes : Detection → Case → Case
  unfolding add_source add_destination add_pair text_or_none
  update_case_indexes d c =
      let src = text_or_none d.source_ip in
      let dst = text_or_none d.destination_ip in
      add_pair src dst (add_destination dst (add_source src c))

  -- `_new_case`
  unfoldable pub new_case : Detection → Case
  unfolding update_case_indexes detection_time
  new_case d = update_case_indexes d (record {
    detections = d ∷ [];
    first_seen = detection_time d;
    last_seen = detection_time d;
    source_ips = [];
    destination_ips = [];
    pairs = [];
    internal_hosts = [];
    external_sources = [];
  })

  -- The branch of the loop for a related case.
  unfoldable pub extend_case : Detection → Case → Case
  unfolding update_case_indexes detection_time
  extend_case d c = update_case_indexes d (record c {
    detections = c.detections ++ d ∷ [];
    first_seen = min c.first_seen (detection_time d);
    last_seen = max c.last_seen (detection_time d);
  })

  -- `_within_window`, with both signs of the difference.
  unfoldable pub within_window : (window_seconds : ℕ) → Case → Detection → Bool
  unfolding detection_time
  within_window window_seconds c d =
      leb (detection_time d) (c.last_seen + window_seconds * microseconds)
      && leb c.last_seen (detection_time d + window_seconds * microseconds)

  unfoldable pub is_related_by : (source destination : Option String) → Case → Bool
  is_related_by none none c = false
  is_related_by none (some dst) c = is_in dst c.source_ips
  is_related_by (some src) none c = is_in src c.source_ips || is_in src c.internal_hosts
  is_related_by (some src) (some dst) c =
      is_in src c.source_ips
      || is_in src c.internal_hosts
      || is_in dst c.source_ips
      || has_pair src dst c.pairs
      || is_in src c.external_sources && is_in dst c.internal_hosts

  -- `_is_related`
  unfoldable pub is_related : Case → Detection → Bool
  unfolding is_related_by text_or_none
  is_related c d = is_related_by (text_or_none d.source_ip) (text_or_none d.destination_ip) c

  unfoldable pub fits : (window_seconds : ℕ) → Detection → Case → Bool
  unfolding within_window is_related
  fits window_seconds d c = within_window window_seconds c d && is_related c d

  -- `_find_related_case` looks at the latest case first; the case found is extended in its place.
  -- The argument is the search among the later cases.
  unfoldable pub attach_by :
      (window_seconds : ℕ) → Detection → Case → List Case → Option (List Case) → Option (List Case)
  unfolding fits extend_case
  attach_by window_seconds d c cs (some rest) = some (c ∷ rest)
  attach_by window_seconds d c cs none =
      if fits window_seconds d c then some (extend_case d c ∷ cs) else none

  unfoldable pub attach : (window_seconds : ℕ) → Detection → List Case → Option (List Case)
  unfolding attach_by
  attach window_seconds d [] = none
  attach window_seconds d (c ∷ cs) = attach_by window_seconds d c cs (attach window_seconds d cs)

  unfoldable pub place_by : Detection → List Case → Option (List Case) → List Case
  unfolding new_case
  place_by d cs (some changed) = changed
  place_by d cs none = cs ++ new_case d ∷ []

  unfoldable pub place : (window_seconds : ℕ) → Detection → List Case → List Case
  unfolding attach place_by
  place window_seconds d cs = place_by d cs (attach window_seconds d cs)

  unfoldable pub group : (window_seconds : ℕ) → List Detection → List Case → List Case
  unfolding place
  group window_seconds [] cs = cs
  group window_seconds (d ∷ ds) cs = group window_seconds ds (place window_seconds d cs)

  -- `max(60, int(window_seconds or DEFAULT_CORRELATION_WINDOW_SECONDS))`
  unfoldable pub effective_window : ℕ → ℕ
  effective_window zero = 1800
  effective_window (suc n) = max 60 (suc n)

  -- The first half of `correlate_detections`.
  unfoldable pub build_cases : (window_seconds : ℕ) → List Detection → List Case
  unfolding group sort_by effective_window
  build_cases window_seconds detections =
      group (effective_window window_seconds) (sort_by (λ d. d.timestamp) detections) []
