-- ===== src/Python/Ipaddress.antt =====
-- Python's `ipaddress`, and `is_private_ip` of schema.py. An address is a number and a network the
-- range between its two ends. How texts are read and printed, and the table of private ranges that
-- changes between releases of Python, are given by the library.
pub mod Overlap
use pondsecndr.Prelude.{
  ℕ, String, Bool, true, false, ◌&&◌, ◌||◌, ◌+◌, ◌*◌, ◌^◌, Option, none, some, leb, ◌==◌, is_empty,
  if◌then◌else◌,
}
use pondsecndr.Python.Result.{Result, ok, raise, type_error}

pub data Version : Type 0 where
  v4 v6 : Version

pub record Address : Type 0 where
  pub version : Version
  pub number : ℕ

pub record Network : Type 0 where
  pub version : Version
  pub network_address : ℕ
  pub broadcast_address : ℕ

abbrev pub version_eq : Version → Version → Bool
version_eq v4 v4 = true
version_eq v6 v6 = true
version_eq _ _ = false

-- `address in network`, which is false across versions.
unfoldable pub contains_address : Network → Address → Bool
contains_address n a =
    version_eq a.version n.version
    && leb n.network_address a.number
    && leb a.number n.broadcast_address

abbrev pub first_address : Network → Address
first_address n = record { version = n.version; number = n.network_address }

abbrev pub last_address : Network → Address
last_address n = record { version = n.version; number = n.broadcast_address }

-- `a.overlaps(b)`
unfoldable pub overlaps : Network → Network → Bool
unfolding contains_address
overlaps a b =
    contains_address a (first_address b)
    || contains_address a (last_address b)
    || contains_address b (first_address a)
    || contains_address b (last_address a)

-- `a.subnet_of(b)` raises `TypeError` across versions.
unfoldable pub subnet_of : Network → Network → Result Bool
subnet_of a b =
    if version_eq a.version b.version
    then ok (leb b.network_address a.network_address && leb a.broadcast_address b.broadcast_address)
    else raise type_error

-- What the library does with texts. `none` stands for `ValueError`; networks are read with
-- `strict=False`, which clears the host bits.
pub record Ipaddress : Type 0 where
  pub ip_address : String → Option Address
  pub ip_network : String → Option Network
  pub show_address : Address → String
  pub show_network : Network → String
  pub is_private : Address → Bool

abbrev in_range : ℕ → ℕ → ℕ → Bool
in_range lo hi n = leb lo n && leb n hi

-- 127.0.0.0/8 and ::1; 169.254.0.0/16 and fe80::/10.
unfoldable pub is_loopback : Address → Bool
is_loopback a = elim a.version [
  | v4 ↦ in_range 0x7f00_0000 0x7fff_ffff a.number
  | v6 ↦ a.number == 1
]

unfoldable pub is_link_local : Address → Bool
is_link_local a = elim a.version [
  | v4 ↦ in_range 0xa9fe_0000 0xa9fe_ffff a.number
  | v6 ↦
      in_range (0xfe80 * 2 ^ 112) (0xfebf * 2 ^ 112 + 0xffff_ffff_ffff_ffff_ffff_ffff_ffff) a.number
]

module _ (lib : Ipaddress) where
  private_address : Option Address → Bool
  unfolding is_loopback is_link_local
  private_address none = false
  private_address (some a) = lib.is_private a || is_loopback a || is_link_local a

  unfoldable pub is_private_ip : String → Bool
  unfolding private_address
  is_private_ip value = if is_empty value then false else private_address (lib.ip_address value)
