-- ===== src/Response/Target/Allowing.antt =====
-- What the allowlist test of response/engine.py answers, and when it raises.
use pondsecndr.Prelude.{
  ◌≡◌, ◌↔◌, ◌⊎◌, inl, inr, Bool-cases, sym, ◌∙◌, refl, arith, String, true, false, List, [], ◌∷◌,
  some, any, All,
}
use pondsecndr.Python.Result.{ok, raise, type_error}
use pondsecndr.Python.Ipaddress.{version_eq, Network, Ipaddress, overlaps, subnet_of}
use pondsecndr.Python.Ipaddress.Overlap.{IsRange, Shared, overlaps_iff}
use pondsecndr.Response.Target.{
  validate_ip_or_network, or_value_error, any_allowed, is_allowlisted, read_networks,
}
use pondsecndr.Response.Target.Protection.{Exists, GivesRanges, any-Shared, read_networks-IsRange}

abbrev pub SameVersion : Network → Network → Type 0
SameVersion a n = version_eq a.version n.version ≡ true

-- With one version, the loop is the search for a network that overlaps.
any_allowed-overlaps :
    (lib : Ipaddress) (a : Network) (ns : List Network)
    → IsRange a
    → All (SameVersion a) ns
    → any_allowed lib a ns ≡ ok (any (overlaps a) ns)
unfolding any_allowed any subnet_of overlaps
any_allowed-overlaps lib a [] r same = refl
any_allowed-overlaps lib a (n ∷ ns) r same =
    ground (arith, r, same.0, any_allowed-overlaps lib a ns r same.1)

-- Some element has the second property, and every one before it the first.
abbrev pub Until : {A : Type 0} → (P Q : A → Type 0) → List A → Type 0
Until P Q [] = ⊥
Until P Q (x ∷ xs) = Q x ⊎ (P x × Until P Q xs)

abbrev pub OtherVersion : Network → Network → Type 0
OtherVersion a n = version_eq a.version n.version ≡ false

-- The target has an address of the other version before any entry that it shares an address with.
abbrev pub Interrupted : Network → List Network → Type 0
Interrupted a = Until (λ n. ¬ Shared a n) (OtherVersion a)

-- One round of the loop, by whether the versions differ and whether the networks overlap.
any_allowed-other :
    (lib : Ipaddress) (a n : Network) (ns : List Network)
    → OtherVersion a n
    → any_allowed lib a (n ∷ ns) ≡ raise type_error
unfolding any_allowed subnet_of
any_allowed-other lib a n ns other = ground (arith, other)

any_allowed-met :
    (lib : Ipaddress) (a n : Network) (ns : List Network)
    → SameVersion a n
    → overlaps a n ≡ true
    → any_allowed lib a (n ∷ ns) ≡ ok true
unfolding any_allowed subnet_of
any_allowed-met lib a n ns same met = ground (arith, same, met)

any_allowed-apart :
    (lib : Ipaddress) (a n : Network) (ns : List Network)
    → IsRange a
    → SameVersion a n
    → overlaps a n ≡ false
    → any_allowed lib a (n ∷ ns) ≡ any_allowed lib a ns
unfolding any_allowed subnet_of overlaps
any_allowed-apart lib a n ns r same apart = ground (arith, r, same, apart)

any_allowed-nil : (lib : Ipaddress) (a : Network) → any_allowed lib a [] ≡ raise type_error → ⊥
unfolding any_allowed
any_allowed-nil lib a h = ground arith

any_allowed-raises :
    (lib : Ipaddress) (a : Network) (ns : List Network)
    → IsRange a
    → All IsRange ns
    → (any_allowed lib a ns ≡ raise type_error) ↔ Interrupted a ns
any_allowed-raises lib a [] r rs = (any_allowed-nil lib a, λ h. absurd h)
any_allowed-raises lib a (n ∷ ns) r rs =
    let rest = any_allowed-raises lib a ns r rs.1 in
    let shared = overlaps_iff a n r rs.0 in
    elim (Bool-cases (version_eq a.version n.version)) [
      | inr other ↦ (λ h. inl other, λ h. any_allowed-other lib a n ns other)
      | inl same ↦ elim (Bool-cases (overlaps a n)) [
        | inl met ↦ (
          λ h. absurd (ground (arith, h, any_allowed-met lib a n ns same met)),
          λ h. elim h [
            | inl other ↦ absurd (ground (arith, same, other))
            | inr (alone, later) ↦ absurd (alone (shared.0 met))
          ],
        )
        | inr apart ↦
            let next = any_allowed-apart lib a n ns r same apart in
            (
              λ h. inr (
                λ common. absurd (ground (arith, apart, shared.1 common)),
                rest.0 (sym next ∙ h),
              ),
              λ h. elim h [
                | inl other ↦ absurd (ground (arith, same, other))
                | inr (alone, later) ↦ next ∙ rest.1 later
              ],
            )
      ]
    ]

-- Of a valid target and entries of its version, the test is true exactly if the target shares an
-- address with one of the entries.
pub is_allowlisted_iff :
    (lib : Ipaddress) (value text : String) (values : List String) (target : Network)
    → GivesRanges lib
    → validate_ip_or_network lib value ≡ ok text
    → lib.ip_network text ≡ some target
    → All (SameVersion target) (read_networks lib values)
    → (is_allowlisted lib value values ≡ ok true)
      ↔ Exists (Shared target) (read_networks lib values)
unfolding is_allowlisted or_value_error
is_allowlisted_iff lib value text values target gives valid read same =
    let r = gives text target read in
    let shared =
      any-Shared target (read_networks lib values) r (read_networks-IsRange lib gives values) in
    let answer = any_allowed-overlaps lib target (read_networks lib values) r same in
    (
      λ h. shared.0 (ground (arith, h, valid, read, answer)),
      λ e. ground (arith, valid, read, answer, shared.1 e),
    )

-- Of a valid target, the test raises `TypeError` exactly if the list has an entry of the other
-- version before which no entry shares an address with the target.
pub is_allowlisted_raises_iff :
    (lib : Ipaddress) (value text : String) (values : List String) (target : Network)
    → GivesRanges lib
    → validate_ip_or_network lib value ≡ ok text
    → lib.ip_network text ≡ some target
    → (is_allowlisted lib value values ≡ raise type_error)
      ↔ Interrupted target (read_networks lib values)
unfolding is_allowlisted or_value_error
is_allowlisted_raises_iff lib value text values target gives valid read =
    rw (is_allowlisted, valid, read)
      (any_allowed-raises lib target (read_networks lib values) (gives text target read)
        (read_networks-IsRange lib gives values))
