-- ===== src/Correlation/Roles.antt =====
-- The roles of the addresses in a case: `_entity_roles` and `_most_common` of correlation.py.
pub mod Sides
use pondsecndr.Prelude.{
  String, Bool, not, ◌&&◌, List, [], ◌∷◌, Option, none, some, map, count_if, ltb, str_eq, sort_by,
  if◌then◌else◌,
}
use pondsecndr.Detection.{Detection}
use pondsecndr.Correlation.Cases.{text_or_none, is_internal_address}
use pondsecndr.Response.Policy.{Platform}

pub record EntityRoles : Type 0 where
  pub external_actor : Option String
  pub threat_source : Option String
  pub affected_host : Option String
  pub victim : Option String
  pub pivot_host : Option String
  pub destination : Option String
  pub response_target : Option String

-- `a or b`
abbrev pub or_else : Option String → Option String → Option String
or_else none b = b
or_else (some a) b = some a

-- The texts that are there and not empty.
unfoldable pub present : List (Option String) → List String
unfolding text_or_none
present [] = []
present (v ∷ vs) = elim (text_or_none v) [ none ↦ present vs | some s ↦ s ∷ present vs ]

-- `Counter(values).most_common(1)`: of texts that are as frequent, the first.
unfoldable pub most_frequent : (all : List String) → Option String → List String → Option String
most_frequent all found [] = found
most_frequent all none (s ∷ rest) = most_frequent all (some s) rest
most_frequent all (some found) (s ∷ rest) =
    most_frequent all
      (some (if ltb (count_if (str_eq found) all) (count_if (str_eq s) all) then s else found)) rest

-- `_most_common`
unfoldable pub most_common : List (Option String) → Option String
unfolding present most_frequent
most_common values = most_frequent (present values) none (present values)

unfoldable pub head_source : List (Option String) → Option String
head_source [] = none
head_source (s ∷ rest) = s

unfoldable pub first_text : (String → Bool) → List (Option String) → Option String
first_text test [] = none
first_text test (none ∷ rest) = first_text test rest
first_text test (some s ∷ rest) = if test s then some s else first_text test rest

module _ (p : Platform) where
  abbrev internal : String → Bool
  internal s = is_internal_address p.ipaddress s

  unfoldable pub as_inbound : (source destination : Option String) → Option (String × String)
  as_inbound (some src) (some dst) =
      if not (internal src) && internal dst then some (src, dst) else none
  as_inbound _ _ = none

  -- `inbound[0]`: the ends of the first detection from an external host to an internal one.
  unfoldable pub first_inbound : List Detection → Option (String × String)
  unfolding text_or_none as_inbound
  first_inbound [] = none
  first_inbound (d ∷ ds) =
      elim (as_inbound (text_or_none d.source_ip) (text_or_none d.destination_ip)) [
        | some ends ↦ some ends
        | none ↦ first_inbound ds
      ]

  unfoldable pub external_actor_of : Option (String × String) → List (Option String) → Option String
  unfolding first_text
  external_actor_of (some (src, dst)) sources = some src
  external_actor_of none sources = first_text (λ s. not (internal s)) sources

  unfoldable pub victim_of : Option (String × String) → List (Option String) → Option String
  unfolding first_text
  victim_of (some (src, dst)) destinations = some dst
  victim_of none destinations = first_text internal destinations

  -- The two tests of the loop that looks for the pivot.
  unfoldable pub is_pivot : (victim : String) (src : String) (destination : Option String) → Bool
  is_pivot victim src none = not (str_eq src victim) && internal src
  is_pivot victim src (some dst) =
      if str_eq src victim then not (str_eq dst victim) else internal src

  unfoldable pub as_pivot : (victim : String) (source destination : Option String) → Option String
  unfolding is_pivot
  as_pivot victim none destination = none
  as_pivot victim (some src) destination =
      if is_pivot victim src destination then some src else none

  unfoldable pub pivot_of : (victim : Option String) → List Detection → Option String
  unfolding as_pivot text_or_none
  pivot_of none ds = none
  pivot_of (some victim) [] = none
  pivot_of (some victim) (d ∷ ds) =
      elim (as_pivot victim (text_or_none d.source_ip) (text_or_none d.destination_ip)) [
        | some src ↦ some src
        | none ↦ pivot_of (some victim) ds
      ]

  -- `_entity_roles`
  unfoldable pub entity_roles : List Detection → EntityRoles
  unfolding sort_by head_source first_inbound external_actor_of victim_of pivot_of first_text
      most_common text_or_none
  entity_roles detections =
      let ordered = sort_by (λ d. d.timestamp) detections in
      let sources = map (λ d. text_or_none d.source_ip) ordered in
      let destinations = map (λ d. text_or_none d.destination_ip) ordered in
      let inbound = first_inbound ordered in
      let external_actor = external_actor_of inbound sources in
      let victim = victim_of inbound destinations in
      let affected_host =
        or_else victim (or_else (first_text internal sources) (head_source sources)) in
      record {
        external_actor = external_actor;
        threat_source = or_else external_actor (head_source sources);
        affected_host = affected_host;
        victim = victim;
        pivot_host = pivot_of victim ordered;
        destination = or_else (most_common destinations) victim;
        response_target = or_else external_actor affected_host;
      }
