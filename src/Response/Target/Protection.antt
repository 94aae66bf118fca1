-- ===== src/Response/Target/Protection.antt =====
-- What response/engine.py protects: every target that shares an address with a protected network.
use Prim.Native.String.{◌++◌ as concat}
use pondsecndr.Prelude.{
  ◌≡◌, ◌↔◌, ◌⊎◌, inl, inr, refl, ap, arith, String, true, false, contains, ◌||◌, List, [], ◌∷◌,
  some, any, All, is_in, Bool-cases, Option-cases, All-append,
}
use pondsecndr.Python.Result.{ok}
use pondsecndr.Python.Ipaddress.{v4, Address, Network, Ipaddress, overlaps, subnet_of}
use pondsecndr.Python.Ipaddress.Overlap.{IsRange, Shared, overlaps_iff}
use pondsecndr.Config.{PondSecConfig}
use pondsecndr.Response.Target.{
  validate_ip_or_network, candidate_text, printed, or_value_error, touches, is_true, range,
  protected_networks, networks_of, hosts_of, is_protected_target, read_networks,
}

-- Some element has the property.
abbrev pub Exists : {A : Type 0} → (A → Type 0) → List A → Type 0
Exists P [] = ⊥
Exists P (x ∷ xs) = P x ⊎ Exists P xs

touches-overlaps : (lib : Ipaddress) (a b : Network) → IsRange a → touches lib a b ≡ overlaps a b
unfolding touches is_true subnet_of overlaps
touches-overlaps lib a b r = ground arith

pub any-Shared :
    (a : Network) (ns : List Network)
    → IsRange a
    → All IsRange ns
    → (any (overlaps a) ns ≡ true) ↔ Exists (Shared a) ns
unfolding any
any-Shared a [] r rs = (λ h. absurd (ground arith), λ h. absurd h)
any-Shared a (n ∷ ns) r rs =
    let here = overlaps_iff a n r rs.0 in
    let there = any-Shared a ns r rs.1 in
    (
      λ h. elim (Bool-cases (overlaps a n)) [
        | inl met ↦ inl (here.0 met)
        | inr apart ↦ inr (there.0 (ground (arith, apart, h)))
      ],
      λ h. elim h [
        | inl shared ↦ ground (arith, here.1 shared)
        | inr later ↦ ground (arith, there.1 later)
      ],
    )

any-touches :
    (lib : Ipaddress) (a : Network) (ns : List Network)
    → IsRange a
    → any (touches lib a) ns ≡ any (overlaps a) ns
unfolding any
any-touches lib a [] r = refl
any-touches lib a (n ∷ ns) r =
    rw (touches-overlaps lib a n r) (ap (◌||◌ (overlaps a n)) (any-touches lib a ns r))

-- The networks of the `ipaddress` library have their first address before their last.
abbrev pub GivesRanges : Ipaddress → Type 0
GivesRanges lib = (s : String) (n : Network) → lib.ip_network s ≡ some n → IsRange n

pub read_networks-IsRange :
    (lib : Ipaddress)
    → GivesRanges lib
    → (values : List String) → All IsRange (read_networks lib values)
unfolding read_networks
read_networks-IsRange lib gives [] = tt
read_networks-IsRange lib gives (value ∷ values) = elim (Option-cases (lib.ip_network value)) [
  | inl other ↦ rw (All, read_networks, other) (read_networks-IsRange lib gives values)
  | inr (n, read) ↦
      rw (All, read_networks, read) (gives value n read, read_networks-IsRange lib gives values)
]

protected_networks-IsRange : All IsRange protected_networks
unfolding protected_networks range
protected_networks-IsRange = (
  omega arith,
  (omega arith, (omega arith, (omega arith, (omega arith, (omega arith, (omega arith, tt)))))),
)

networks_of-IsRange :
    (lib : Ipaddress) (config : PondSecConfig)
    → GivesRanges lib
    → All IsRange (networks_of lib config)
unfolding networks_of
networks_of-IsRange lib config gives =
    All-append IsRange protected_networks _ protected_networks-IsRange
      (read_networks-IsRange lib gives _)

-- The network of one address.
abbrev pub single : Address → Network
single a = record { version = a.version; network_address = a.number; broadcast_address = a.number }

-- What the code relies on of the library: its networks are ranges, it reads what it prints as what it
-- was, only networks are printed with a slash, and the prefix 32 of an IPv4 address is that address.
pub record ReadsBack (lib : Ipaddress) : Type 0 where
  pub ranges : GivesRanges lib
  pub network_slash :
      (s : String) (n : Network)
      → lib.ip_network s ≡ some n
      → contains (lib.show_network n) "/" ≡ true
  pub network_back :
      (s : String) (n : Network)
      → lib.ip_network s ≡ some n
      → lib.ip_network (lib.show_network n) ≡ some n
  pub address_slash :
      (s : String) (a : Address)
      → lib.ip_address s ≡ some a
      → contains (lib.show_address a) "/" ≡ false
  pub address_back :
      (s : String) (a : Address)
      → lib.ip_address s ≡ some a
      → a.version ≡ v4
      → lib.ip_network (concat (lib.show_address a) "/32") ≡ some (single a)

-- A text for a network, or for one IPv4 address: what the library prints for it, and its addresses.
pub data Means (lib : Ipaddress) (value : String) : (target : String) → Network → Type 0 where
  a_network :
      (n : Network)
      → contains value "/" ≡ true
      → lib.ip_network value ≡ some n
      → Means lib value (lib.show_network n) n
  an_address :
      (a : Address)
      → contains value "/" ≡ false
      → lib.ip_address value ≡ some a
      → a.version ≡ v4
      → Means lib value (lib.show_address a) (single a)

-- The candidate of such a text is what the text means.
candidate_text-Means :
    (lib : Ipaddress) (value target : String) (meant : Network)
    → ReadsBack lib
    → Means lib value target meant
    → (validate_ip_or_network lib value ≡ ok target)
      × (lib.ip_network (candidate_text lib target) ≡ some meant)
unfolding validate_ip_or_network candidate_text printed
candidate_text-Means lib value _ _ reads (a_network n slash read) = (
  ground (arith, slash, read),
  rw (reads.network_slash value n read) (reads.network_back value n read),
)
candidate_text-Means lib value _ _ reads (an_address a plain read old) = (
  ground (arith, plain, read),
  rw (reads.address_slash value a read) (reads.address_back value a read old),
)

candidate_iff :
    (lib : Ipaddress) (config : PondSecConfig) (value target : String) (candidate : Network)
    → GivesRanges lib
    → validate_ip_or_network lib value ≡ ok target
    → lib.ip_network (candidate_text lib target) ≡ some candidate
    → (is_protected_target lib value config ≡ ok true) ↔ (
        Exists (Shared candidate) (networks_of lib config)
        ⊎ (is_in target (hosts_of lib config) ≡ true))
unfolding is_protected_target or_value_error
candidate_iff lib config value target candidate gives valid read =
    let r = gives (candidate_text lib target) candidate read in
    let shared =
      any-Shared candidate (networks_of lib config) r (networks_of-IsRange lib config gives) in
    let touched = any-touches lib candidate (networks_of lib config) r in
    (
      λ h. elim (Bool-cases (any (overlaps candidate) (networks_of lib config))) [
        | inl met ↦ inl (shared.0 met)
        | inr apart ↦ inr (ground (arith, h, valid, read, touched, apart))
      ],
      λ h. elim h [
        | inl common ↦ ground (arith, valid, read, touched, shared.1 common)
        | inr host ↦ ground (arith, valid, read, touched, host)
      ],
    )

-- A network, or a single IPv4 address, is protected exactly if one of its addresses lies in one of the
-- protected networks, built in or configured, or its text is one of the protected hosts. A single
-- IPv6 address is not spoken of: the code takes the network of prefix 32 around it.
pub is_protected_target_iff :
    (lib : Ipaddress) (config : PondSecConfig) (value target : String) (meant : Network)
    → ReadsBack lib
    → Means lib value target meant
    → (is_protected_target lib value config ≡ ok true) ↔ (
        Exists (Shared meant) (networks_of lib config)
        ⊎ (is_in target (hosts_of lib config) ≡ true))
is_protected_target_iff lib config value target meant reads means =
    let (valid, read) = candidate_text-Means lib value target meant reads means in
    candidate_iff lib config value target meant reads.ranges valid read
