-- ===== src/Response/Target.antt =====
-- The first half of response/engine.py: which address an incident's response is aimed at, and
-- whether it is protected or on the allowlist.
use Prim.Native.String.{◌++◌ as concat}
pub mod Protection
pub mod Allowing
use pondsecndr.Prelude.{
  ℕ, ◌+◌, String, Bool, true, false, not, ◌&&◌, ◌||◌, List, [], ◌∷◌, ◌++◌, Option, none, some,
  length, leb, ltb, ◌==◌, any, str_eq, is_empty, is_in, contains, lower, meets, add, if◌then◌else◌,
  ◌*◌, ◌^◌,
}
use pondsecndr.Prelude.Int.{ℤ, pos, ltb_ℤ, max_ℤ}
use pondsecndr.Python.Float.{Float, float_max}
use pondsecndr.Python.Value.{
  Value, Fields, get, as_dict, text, text_or, truthy, int_or_zero, float_or_zero,
}
use pondsecndr.Python.Result.{Result, ok, raise, response_denied, value_error, ◌>>=◌}
use pondsecndr.Python.Ipaddress.{
  Version, v4, v6, Network, Ipaddress, version_eq, overlaps, subnet_of, is_private_ip,
}
use pondsecndr.Config.{PondSecConfig}
use pondsecndr.Storage.{Incident, given}
use pondsecndr.Response.Evidence.{detections_of}
use pondsecndr.Response.Policy.{Platform}

unfoldable pub range : Version → ℕ → ℕ → Network
range version lo hi = record { version = version; network_address = lo; broadcast_address = hi }

-- `PROTECTED_NETWORKS`
unfoldable pub protected_networks : List Network
protected_networks =
    range v4 0x7f00_0000 0x7fff_ffff
    ∷ range v6 1 1
    ∷ range v4 0xa9fe_0000 0xa9fe_ffff
    ∷ range v6 (0xfe80 * 2 ^ 112) (0xfebf * 2 ^ 112 + 0xffff_ffff_ffff_ffff_ffff_ffff_ffff)
    ∷ range v4 0xe000_0000 0xefff_ffff
    ∷ range v6 (0xff00 * 2 ^ 112) (0xffff * 2 ^ 112 + 0xffff_ffff_ffff_ffff_ffff_ffff_ffff)
    ∷ range v4 0 0
    ∷ []

unfoldable pub internal_isolation_categories : List String
internal_isolation_categories =
    "anomaly" ∷ "machine_learning" ∷ "lateral_movement" ∷ "command_and_control" ∷ "exfiltration"
    ∷ []

module _ (lib : Ipaddress) where
  unfoldable pub printed {ℓ} : {A : Type ℓ} → String → (A → String) → Option A → Result String
  printed value show none = raise (response_denied (concat "invalid IP or network: " value))
  printed value show (some a) = ok (show a)

  unfoldable pub validate_ip_or_network : String → Result String
  validate_ip_or_network value =
      if contains value "/"
      then printed value lib.show_network (lib.ip_network value)
      else printed value lib.show_address (lib.ip_address value)

  -- The texts that name no network are passed over.
  unfoldable pub read_networks : List String → List Network
  read_networks [] = []
  read_networks (value ∷ values) =
      let rest = read_networks values in
      elim (lib.ip_network value) [ none ↦ rest | some n ↦ n ∷ rest ]

  unfoldable pub or_value_error {ℓ} : {A : Type ℓ} → Option A → Result A
  or_value_error none = raise value_error
  or_value_error (some a) = ok a

  -- `candidate.version == network.version and (candidate.subnet_of(network) or ...)`: with equal
  -- versions `subnet_of` does not raise.
  unfoldable pub is_true : Result Bool → Bool
  is_true (ok b) = b
  is_true (raise e) = false

  unfoldable pub touches : Network → Network → Bool
  touches candidate network =
      version_eq candidate.version network.version
      && (is_true (subnet_of candidate network) || overlaps candidate network)

  -- A single address is taken with the prefix length 32, whatever its version.
  unfoldable pub candidate_text : String → String
  candidate_text target = if contains target "/" then target else concat target "/32"

  unfoldable pub networks_of : PondSecConfig → List Network
  networks_of config =
      protected_networks
      ++ read_networks (
          config.interfaces.management
          ++ (config.interfaces.excluded_networks
              ++ (config.response.protected_networks ++ config.response.break_glass_values)))

  unfoldable pub hosts_of : PondSecConfig → List String
  hosts_of config =
      config.interfaces.excluded_hosts
      ++ (config.response.protected_hosts ++ config.response.break_glass_values)

  unfoldable pub is_protected_target : String → PondSecConfig → Result Bool
  is_protected_target value config = do
    target ← validate_ip_or_network value
    candidate ← or_value_error (lib.ip_network (candidate_text target))
    ok (any (touches candidate) (networks_of config) || is_in target (hosts_of config))

  -- The loop of `is_allowlisted`: `subnet_of` raises where the versions differ.
  unfoldable pub any_allowed : Network → List Network → Result Bool
  any_allowed target [] = ok false
  any_allowed target (network ∷ networks) =
      let rest = any_allowed target networks in
      subnet_of target network >>= λ inside.
      if inside || overlaps target network then ok true else rest

  unfoldable pub is_allowlisted : String → List String → Result Bool
  is_allowlisted value allowlist_values = do
    text ← validate_ip_or_network value
    target ← or_value_error (lib.ip_network text)
    any_allowed target (read_networks allowlist_values)

pub record Actor : Type 0 where
  pub source : String
  pub categories : List String
  pub confidence : Float
  pub score : ℤ

module _ (p : Platform) where
  -- The three dictionaries of `_internal_behavior_actor`, as one that keeps their order.
  unfoldable pub observe_actor :
      (source category : String) (confidence : Float) (score : ℤ) → List Actor → List Actor
  observe_actor source category confidence score [] =
      record {
        source = source;
        categories = category ∷ [];
        confidence = float_max p.floats (p.floats.decimal 0 0) confidence;
        score = max_ℤ (pos 0) score;
      }
      ∷ []
  observe_actor source category confidence score (a ∷ actors) =
      if str_eq a.source source
      then record a {
        categories = add category a.categories;
        confidence = float_max p.floats a.confidence confidence;
        score = max_ℤ a.score score;
      }
        ∷ actors
      else a ∷ observe_actor source category confidence score actors

  unfoldable pub is_internal_source : Fields → Bool
  is_internal_source d =
      truthy p.floats p.texts (get d "source_ip")
      && is_private_ip p.ipaddress (text p.floats p.texts (get d "source_ip"))

  unfoldable pub actor_category : Fields → String
  actor_category d = lower (text_or p.floats p.texts (get d "category") "")

  unfoldable pub collect_actors : List Fields → List Actor → Result (List Actor)
  collect_actors [] actors = ok actors
  collect_actors (d ∷ ds) actors =
      elim (is_internal_source d && is_in (actor_category d) internal_isolation_categories) [
        | false ↦ collect_actors ds actors
        | true ↦ (do
          confidence ← float_or_zero p.floats p.texts (get d "confidence")
          score ← int_or_zero p.floats p.texts (get d "severity")
          collect_actors ds (
              observe_actor (text p.floats p.texts (get d "source_ip")) (actor_category d)
                confidence score actors))
      ]

  unfoldable pub is_candidate : Actor → Bool
  is_candidate a =
      leb 2 (length a.categories)
      && meets a.categories ("command_and_control" ∷ "exfiltration" ∷ "lateral_movement" ∷ [])
      && not (ltb_ℤ a.score (pos 9))
      && not (p.floats.lt a.confidence (p.floats.decimal 95 2))

  -- Whether `a` comes behind `b` in the order by `(len(categories), score)`.
  unfoldable pub is_behind : Actor → Actor → Bool
  is_behind a b =
      ltb (length a.categories) (length b.categories)
      || length a.categories == length b.categories && ltb_ℤ a.score b.score

  -- The first of the sorted candidates: the sort is stable, also in reverse.
  unfoldable pub best : Option Actor → List Actor → Option Actor
  best found [] = found
  best none (a ∷ actors) = best (if is_candidate a then some a else none) actors
  best (some b) (a ∷ actors) = best (some (if is_candidate a && is_behind b a then a else b)) actors

  unfoldable pub source_of : Option Actor → Option String
  source_of none = none
  source_of (some a) = some a.source

  unfoldable pub internal_behavior_actor : Value → Result (Option String)
  internal_behavior_actor evidence = do
    actors ← collect_actors (detections_of evidence) []
    ok (source_of (best none actors))

  -- The private source, else the internal actor, else the private target of the roles.
  unfoldable pub fallback_target : Incident → Option String
  fallback_target incident =
      let target =
        get (as_dict (get (as_dict incident.evidence) "entity_roles")) "response_target" in
      if truthy p.floats p.texts target && is_private_ip p.ipaddress (text p.floats p.texts target)
      then some (text p.floats p.texts target)
      else if given incident.source_ip
      then incident.source_ip
      else none

  unfoldable pub private_source : Option String → Option String
  private_source none = none
  private_source (some source) = if is_private_ip p.ipaddress source then some source else none

  unfoldable pub after_actor : Incident → Option String → Option String
  after_actor incident (some actor) =
      if is_empty actor then fallback_target incident else some actor
  after_actor incident none = fallback_target incident

  unfoldable pub response_target_for_incident : Incident → Result (Option String)
  response_target_for_incident incident = elim (private_source incident.source_ip) [
    | some source ↦ ok (some source)
    | none ↦ (do actor ← internal_behavior_actor incident.evidence; ok (after_actor incident actor))
  ]
