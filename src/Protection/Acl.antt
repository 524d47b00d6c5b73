-- ===== src/Protection/Acl.antt =====
-- `Acl` of src/ntp/protection.rs: the allowlist of IPv4 prefixes.
pub mod Prefix
pub mod Lists
use Prim.Native.Nat.{bit_and}
use rust_gps_ntp.Common.{
  ℕ, ◌+◌, ◌-◌, ◌*◌, ◌%◌, ◌^◌, Bool, true, false, Option, none, some, List, [], ◌∷◌, ◌||◌, set,
  replicate, leb, ◌==◌, if◌then◌else◌,
}
use rust_gps_ntp.Common.Words.{u32}
use rust_gps_ntp.Protection.Cidr.{Text, parse_ipv4_cidr}

abbrev pub acl_max_entries : ℕ
acl_max_entries = 8

pub record AclEntry : Type 0 where
  pub network : ℕ
  pub mask : ℕ

-- `AclEntry::contains`.
unfoldable pub entry_contains : AclEntry → ℕ → Bool
entry_contains e addr = bit_and addr e.mask == bit_and e.network e.mask

pub record Acl : Type 0 where
  pub entries : List (Option AclEntry)
  pub len : ℕ
  pub default_allow : Bool

unfoldable pub allow_all : Acl
allow_all = record { entries = replicate acl_max_entries none; len = 0; default_allow = true }

unfoldable pub deny_all : Acl
deny_all = record { entries = replicate acl_max_entries none; len = 0; default_allow = false }

-- `u32::from_be_bytes`.
abbrev pub address : ℕ → ℕ → ℕ → ℕ → ℕ
address a b c d = a * 2 ^ 24 + b * 2 ^ 16 + c * 2 ^ 8 + d

-- `!((1 << (32 - prefix)) - 1)`. A shift count is taken modulo 32, and `!` is the difference from
-- 32 ones.
unfoldable pub prefix_mask : ℕ → ℕ
prefix_mask prefix_bits =
    if prefix_bits == 0
    then 0
    else 2 ^ 32 - 1 - (u32 (2 ^ (u32 (32 + 2 ^ 32 - prefix_bits) % 32)) - 1)

-- `position(|e| e.is_none()).unwrap_or(0)`.
unfoldable pub first_free : ℕ → List (Option AclEntry) → ℕ
first_free i [] = 0
first_free i (none ∷ es) = i
first_free i (some e ∷ es) = first_free (i + 1) es

-- Whether the entry was added, behind the new list.
unfoldable pub add_ipv4_cidr : Acl → ℕ → ℕ → ℕ → ℕ → ℕ → Acl × Bool
unfolding first_free prefix_mask
add_ipv4_cidr acl a b c d prefix_bits =
    let entry : AclEntry = record { network = address a b c d; mask = prefix_mask prefix_bits } in
    if leb acl_max_entries acl.len then (acl, false) else (
      record acl {
        entries = set acl.entries (first_free 0 acl.entries) (some entry);
        len = acl.len + 1;
      },
      true,
    )

unfoldable pub private_lan : Acl
unfolding add_ipv4_cidr deny_all
private_lan =
    let loopback = (add_ipv4_cidr deny_all 127 0 0 0 8).0 in
    let class_a = (add_ipv4_cidr loopback 10 0 0 0 8).0 in
    let class_b = (add_ipv4_cidr class_a 172 16 0 0 12).0 in
    (add_ipv4_cidr class_b 192 168 0 0 16).0

unfoldable pub from_config : Text → Acl
unfolding parse_ipv4_cidr private_lan
from_config cidr = elim (parse_ipv4_cidr cidr) [
  | some x ↦ (add_ipv4_cidr deny_all x.a x.b x.c x.d x.prefix).0
  | none ↦ private_lan
]

unfoldable pub any_contains : List (Option AclEntry) → ℕ → Bool
unfolding entry_contains
any_contains [] addr = false
any_contains (none ∷ es) addr = any_contains es addr
any_contains (some e ∷ es) addr = entry_contains e addr || any_contains es addr

unfoldable pub allows : Acl → ℕ → Bool
unfolding any_contains
allows acl addr = if acl.len == 0 then acl.default_allow else any_contains acl.entries addr
