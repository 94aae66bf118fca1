-- ===== src/Examples/Targets.antt =====
-- The theorems on protected and allowed targets, and on the layers of a decision, on samples.
use pondsecndr.Prelude.{
  ℕ, ◌≤◌, ◌≡◌, ◌↔◌, ◌⊎◌, refl, subst, arith, String, Bool, true, false, List, [], ◌∷◌, Option, none,
  some, is_in, contains, str_eq, if◌then◌else◌, Bool-cases, inl, inr, All, some-injective, ◌||◌,
  ◌==◌,
}
use pondsecndr.Python.Result.{ok, raise, type_error}
use pondsecndr.Python.Value.{
  Value, null, str, int, arr, obj, Items, empty, item, Fields, end, field,
}
use pondsecndr.Python.Ipaddress.{v4, v6, Network, Ipaddress, is_private_ip}
use pondsecndr.Python.Ipaddress.Overlap.{Shared}
use pondsecndr.Config.{PondSecConfig, ResponseConfig}
use pondsecndr.Storage.{Incident, Store, Baseline}
use pondsecndr.Response.Policy.{enforce, evaluate_automatic_response_policy}
use pondsecndr.Response.Policy.Layers.{decision-compromised}
use pondsecndr.Response.Target.{
  validate_ip_or_network, printed, read_networks, networks_of, hosts_of, is_protected_target,
  is_allowlisted,
}
use pondsecndr.Response.Target.Protection.{
  Exists, GivesRanges, ReadsBack, Means, an_address, is_protected_target_iff,
}
use pondsecndr.Response.Target.Allowing.{Interrupted, is_allowlisted_iff, is_allowlisted_raises_iff}
use pondsecndr.Samples

-- A library that knows one address, one network that holds it, and one of the other version.
abbrev office : Network
office = record { version = v4; network_address = 100; broadcast_address = 110 }

abbrev printer : Network
printer = record { version = v4; network_address = 105; broadcast_address = 105 }

abbrev tunnel : Network
tunnel = record { version = v6; network_address = 5; broadcast_address = 5 }

abbrev parse_network : String → Option Network
parse_network s =
    if str_eq s "printer" || str_eq s "printer/32"
    then some printer
    else if str_eq s "office"
    then some office
    else if str_eq s "tunnel"
    then some tunnel
    else none

abbrev lib : Ipaddress
lib = record Samples.ipaddress {
  ip_address =
      λ s. if str_eq s "printer" then some (record { version = v4; number = 105 }) else none;
  ip_network = parse_network;
  show_address = λ a. "printer";
}

lib-GivesRanges : GivesRanges lib
lib-GivesRanges s n h = ground (arith, h)

abbrev guarded : PondSecConfig
guarded = record Samples.config {
  response = record Samples.response { protected_networks = "office/24" ∷ [] };
}

printer_valid : validate_ip_or_network lib "printer" ≡ ok "printer"
unfolding validate_ip_or_network contains printed
printer_valid = refl

-- A library that knows one network, one of its addresses, and how both are written.
abbrev plain_network : String → Option Network
plain_network s =
    if str_eq s "office/24"
    then some office
    else if str_eq s "printer/32"
    then some printer
    else none

abbrev written : Network → String
written n = if n.broadcast_address == 110 then "office/24" else "printer/32"

abbrev small : Ipaddress
small = record lib { ip_network = plain_network; show_network = written }

-- A fact about both networks holds of what the library reads.
of_both :
    (P : Network → Type 0)
    → P office
    → P printer
    → (s : String) (n : Network) → plain_network s ≡ some n
    → P n
of_both P o p s n h = elim (Bool-cases (str_eq s "office/24")) [
  | inl first ↦ subst P (some-injective {a = office} {b = n} (ground (arith, first, h))) o
  | inr other ↦ elim (Bool-cases (str_eq s "printer/32")) [
    | inl second ↦
        subst P (some-injective {a = printer} {b = n} (ground (arith, other, second, h))) p
    | inr neither ↦ absurd (ground (arith, other, neither, h))
  ]
]

small-ReadsBack : ReadsBack small
unfolding contains
small-ReadsBack = record {
  ranges = λ s n h. ground (arith, h);
  network_slash = of_both (λ n. contains (written n) "/" ≡ true) refl refl;
  network_back = of_both (λ n. plain_network (written n) ≡ some n) refl refl;
  address_slash = λ s a h. refl;
  address_back = λ s a h old. ground (arith, h);
}

printer-Means : Means small "printer" "printer" printer
unfolding contains
printer-Means = an_address (record { version = v4; number = 105 }) refl refl refl

is_protected_target_iff_example : (is_protected_target small "printer" guarded ≡ ok true) ↔ (
    Exists (Shared printer) (networks_of small guarded)
    ⊎ (is_in "printer" (hosts_of small guarded) ≡ true))
is_protected_target_iff_example =
    is_protected_target_iff small guarded "printer" "printer" printer small-ReadsBack printer-Means

is_allowlisted_iff_example :
    (is_allowlisted lib "printer" ("office" ∷ []) ≡ ok true)
    ↔ Exists (Shared printer) (read_networks lib ("office" ∷ []))
unfolding read_networks
is_allowlisted_iff_example =
    is_allowlisted_iff lib "printer" "printer" ("office" ∷ []) printer lib-GivesRanges printer_valid
      refl (refl, tt)

is_allowlisted_raises_iff_example :
    (is_allowlisted lib "printer" ("tunnel" ∷ "office" ∷ []) ≡ raise type_error)
    ↔ Interrupted printer (read_networks lib ("tunnel" ∷ "office" ∷ []))
unfolding read_networks
is_allowlisted_raises_iff_example =
    is_allowlisted_raises_iff lib "printer" "printer" ("tunnel" ∷ "office" ∷ []) printer
      lib-GivesRanges printer_valid refl

-- An internal host that moves data out, with the least evidence asked for.
abbrev isolating : PondSecConfig
isolating = record Samples.config {
  response = record Samples.response {
    ai_full_decision_mode = true;
    isolate_internal = true;
    min_internal_categories = 1;
    min_supporting_indicators = 1;
    min_independent_engines = 1;
  };
}

abbrev leak : Value
leak = obj (
    field "detections"
      (arr (
        item
          (obj (
            field "category" (str "exfiltration")
              (field "detector_id" (str "pondsec.data_exfiltration") end)))
          empty))
      end)

abbrev insider : Incident
insider = record Samples.incident { source_ip = some Samples.internal_host; evidence = leak }

abbrev observed_store : Store
observed_store = record Samples.store {
  baselines =
      record { host_ip = Samples.internal_host; observation_count = 60; baseline = end } ∷ [];
}

host_is_private : is_private_ip Samples.ipaddress Samples.internal_host ≡ true
unfolding is_private_ip
host_is_private = refl

insider_is_enforced :
    (evaluate_automatic_response_policy Samples.platform isolating insider Samples.now
      observed_store Samples.internal_host false false).status
    ≡ enforce
unfolding evaluate_automatic_response_policy pondsecndr.Config.Learning.learning_status
    is_private_ip pondsecndr.Response.Policy.learning_complete_for_response
    pondsecndr.Response.Policy.below_confidence
    pondsecndr.Response.Policy.internal_isolation_reasons pondsecndr.Response.Policy.amount_reasons
    pondsecndr.Response.Evidence.evidence_summary pondsecndr.Prelude.sorted_set
    pondsecndr.Python.Value.dicts pondsecndr.Python.Value.as_list pondsecndr.Python.Value.get
    pondsecndr.Python.Value.as_dict pondsecndr.Prelude.meets pondsecndr.Python.Value.text_or
    pondsecndr.Python.Value.truthy pondsecndr.Python.Value.text mathlib.Core.List.flat_map
    pondsecndr.Prelude.all pondsecndr.Prelude.any pondsecndr.Prelude.count_if
    pondsecndr.Prelude.keep pondsecndr.Prelude.add contains is_in pondsecndr.Prelude.is_subset
    pondsecndr.Prelude.lower pondsecndr.Prelude.starts_with pondsecndr.Python.Value.elements
    pondsecndr.Python.Value.has pondsecndr.Response.Evidence.detections_of
    pondsecndr.Response.Evidence.engine_for_detection pondsecndr.Response.Evidence.is_ml
    pondsecndr.Response.Evidence.is_prevented_or_blocked pondsecndr.Response.Evidence.listed_sources
    pondsecndr.Response.Evidence.named_source pondsecndr.Response.Evidence.some_and_all
    pondsecndr.Response.Evidence.sources_for_detection
    pondsecndr.Response.Evidence.supporting_indicators pondsecndr.Response.Policy.activation_reasons
    pondsecndr.Response.Policy.kind_reasons pondsecndr.Response.Policy.policy_status
    pondsecndr.Response.Policy.guard_reasons pondsecndr.Response.Policy.side_reasons
    pondsecndr.Storage.Blocks.recent_automatic_internal_block_count
    pondsecndr.Storage.host_baseline_observations
insider_is_enforced = refl

decision-compromised_example :
    ((evaluate_automatic_response_policy Samples.platform isolating insider Samples.now
        observed_store Samples.internal_host false false).decision_layers.likely_compromised
      ≡ true)
    × ((evaluate_automatic_response_policy Samples.platform isolating insider Samples.now
          observed_store Samples.internal_host false false).decision_layers.containment_eligible
        ≡ true)
    × ((evaluate_automatic_response_policy Samples.platform isolating insider Samples.now
          observed_store Samples.internal_host false false).decision_layers.execution_allowed
        ≡ true)
decision-compromised_example =
    decision-compromised Samples.platform isolating insider Samples.now observed_store
      Samples.internal_host false false host_is_private insider_is_enforced
