-- ===== src/Python/Ipaddress/Overlap.antt =====
-- What `overlaps` and `subnet_of` decide: whether two networks share an address.
use pondsecndr.Prelude.{◌≤◌, max, ◌≡◌, ◌↔◌, true, arith}
use pondsecndr.Python.Result.{ok}
use pondsecndr.Python.Ipaddress.{Address, Network, contains_address, overlaps, subnet_of}

abbrev pub IsRange : Network → Type 0
IsRange n = n.network_address ≤ n.broadcast_address

-- The networks have an address in common.
abbrev pub Shared : Network → Network → Type 0
Shared a b = (x : Address) × (contains_address a x ≡ true) × (contains_address b x ≡ true)

-- The later of the two first addresses is common to networks that overlap.
pub meeting : Network → Network → Address
meeting a b = record { version = a.version; number = max a.network_address b.network_address }

contains-meeting :
    (a b : Network)
    → IsRange a
    → IsRange b
    → overlaps a b ≡ true
    → (contains_address a (meeting a b) ≡ true) × (contains_address b (meeting a b) ≡ true)
unfolding overlaps meeting
contains-meeting a b ra rb h = ground arith

shared_overlaps :
    (a b : Network) (x : Address)
    → contains_address a x ≡ true
    → contains_address b x ≡ true
    → overlaps a b ≡ true
unfolding overlaps
shared_overlaps a b x ha hb = ground arith

-- Networks overlap exactly when they have an address in common.
pub overlaps_iff : (a b : Network) → IsRange a → IsRange b → (overlaps a b ≡ true) ↔ Shared a b
overlaps_iff a b ra rb = (
  λ h. let both = contains-meeting a b ra rb h in (meeting a b, both.0, both.1),
  λ (x, ha, hb). shared_overlaps a b x ha hb,
)

-- A subnet overlaps the network that holds it, so the code's `or` adds nothing to `overlaps`.
pub overlaps_of_subnet_of :
    (a b : Network) → IsRange a → subnet_of a b ≡ ok true → overlaps a b ≡ true
unfolding overlaps subnet_of
overlaps_of_subnet_of a b ra h = ground arith
