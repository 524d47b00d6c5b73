-- ===== src/Protection/Acl/Lists.antt =====
-- The whole allowlist: what adding an entry does, and what the two configurations let through.
use rust_gps_ntp.Common.{
  ℕ, suc, ◌+◌, ◌*◌, ◌/◌, ◌^◌, ◌≤◌, ◌<◌, ◌≡◌, refl, ap, ◌∙◌, ◌↔◌, ◌⊎◌, inl, inr, Bool, true, false,
  Option, none, some, List, [], ◌∷◌, ◌||◌, arith, length, length-set, set, leb, ◌==◌, Bool-cases,
}
use rust_gps_ntp.Protection.Acl.{
  acl_max_entries, AclEntry, entry_contains, Acl, deny_all, address, prefix_mask, first_free,
  add_ipv4_cidr, private_lan, from_config, any_contains, allows,
}
use rust_gps_ntp.Protection.Acl.Prefix.{InPrefix, entry_contains_iff}
use rust_gps_ntp.Protection.Cidr.{Text, Cidr, parse_ipv4_cidr}

unfoldable pub used : List (Option AclEntry) → ℕ
used [] = 0
used (none ∷ es) = used es
used (some e ∷ es) = suc (used es)

-- Eight slots, of which `len` are in use.
pub record IsAcl (acl : Acl) : Type 0 where
  pub slots : length acl.entries ≡ acl_max_entries
  pub counted : used acl.entries ≡ acl.len

-- The slot that `add_ipv4_cidr` fills, and the list after it.
record Filled (e : AclEntry) (i : ℕ) (es : List (Option AclEntry)) : Type 0 where
  at : ℕ
  slot : first_free i es ≡ i + at
  more : used (set es at (some e)) ≡ suc (used es)
  matches :
      (addr : ℕ)
      → any_contains (set es at (some e)) addr ≡ any_contains es addr || entry_contains e addr

or_false : (b c : Bool) → b || c ≡ c || b
or_false true true = refl
or_false true false = refl
or_false false true = refl
or_false false false = refl

first_free-Filled :
    (e : AclEntry) (i : ℕ) (es : List (Option AclEntry)) → used es < length es → Filled e i es
unfolding first_free used any_contains
first_free-Filled e i [] h = absurd (omega arith)
first_free-Filled e i (none ∷ es) h = record {
  at = 0;
  slot = omega arith;
  more = refl;
  matches = λ addr. or_false (entry_contains e addr) (any_contains es addr);
}
first_free-Filled e i (some x ∷ es) h =
    let rest = first_free-Filled e (i + 1) es (omega arith) in
    record {
      at = suc rest.at;
      slot = omega (arith, rest.slot);
      more = ap suc rest.more;
      matches = λ addr. ground (arith, rest.matches addr);
    }

used-le-length : (es : List (Option AclEntry)) → used es ≤ length es
unfolding used
used-le-length [] = omega arith
used-le-length (none ∷ es) = omega (arith, used-le-length es)
used-le-length (some e ∷ es) = omega (arith, used-le-length es)

-- Adding an entry keeps the list well formed, whether or not there is room.
pub add_ipv4_cidr-IsAcl :
    (acl : Acl) (a b c d p : ℕ) → IsAcl acl → IsAcl (add_ipv4_cidr acl a b c d p).0
unfolding add_ipv4_cidr
add_ipv4_cidr-IsAcl acl a b c d p v = elim (Bool-cases (leb acl_max_entries acl.len)) [
  | inl full ↦ rw (full, add_ipv4_cidr) v
  | inr room ↦
      let e : AclEntry = record { network = address a b c d; mask = prefix_mask p } in
      let filled = first_free-Filled e 0 acl.entries (ground (arith, v.slots, v.counted)) in
      let slot : first_free 0 acl.entries ≡ filled.at = omega (arith, filled.slot) in
      rw (room, add_ipv4_cidr, slot)
        (record {
          slots = length-set acl.entries filled.at (some e) ∙ v.slots;
          counted = omega (arith, filled.more, v.counted);
        })
]

any_contains-unused :
    (es : List (Option AclEntry)) (addr : ℕ) → used es ≡ 0 → any_contains es addr ≡ false
unfolding used any_contains
any_contains-unused [] addr h = refl
any_contains-unused (none ∷ es) addr h = any_contains-unused es addr h
any_contains-unused (some e ∷ es) addr h = absurd (omega arith)

or_iff : {P Q : Type 0} (b c : Bool) → (b ≡ true) ↔ P → (c ≡ true) ↔ Q → ((b || c) ≡ true) ↔ (P ⊎ Q)
or_iff true c p q = (λ _. inl (p.0 refl), λ _. refl)
or_iff false true p q = (λ _. inr (q.0 refl), λ _. refl)
or_iff false false p q = (λ e. absurd (ground arith), λ e. elim e [ inl x ↦ p.1 x | inr y ↦ q.1 y ])

-- An entry lets the address through: the list is not empty, and allows it.
any_contains_iff :
    (acl : Acl) (addr : ℕ)
    → IsAcl acl
    → (any_contains acl.entries addr ≡ true) ↔ ((0 < acl.len) × (allows acl addr ≡ true))
unfolding allows
any_contains_iff acl addr v = elim (Bool-cases (acl.len == 0)) [
  | inl none_used ↦
      let unused = any_contains-unused acl.entries addr (ground (arith, v.counted)) in
      (λ e. absurd (ground arith), λ h. absurd (ground arith))
  | inr some_used ↦ rw (some_used, allows) (λ e. (ground arith, e), λ h. h.1)
]

-- With room, an added entry takes effect: an address is let through exactly when an entry let it
-- through before, or it is in the new prefix.
pub allows-add_ipv4_cidr :
    (acl : Acl) (a b c d p addr : ℕ)
    → IsAcl acl
    → acl.len < acl_max_entries
    → address a b c d < 2 ^ 32
    → addr < 2 ^ 32
    → p ≤ 32
    → (allows (add_ipv4_cidr acl a b c d p).0 addr ≡ true)
      ↔ ((0 < acl.len) × (allows acl addr ≡ true) ⊎ InPrefix (address a b c d) p addr)
unfolding add_ipv4_cidr allows
allows-add_ipv4_cidr acl a b c d p addr v room hn ha hp =
    let e : AclEntry = record { network = address a b c d; mask = prefix_mask p } in
    let open_slot : leb acl_max_entries acl.len ≡ false = ground arith in
    let filled = first_free-Filled e 0 acl.entries (omega (arith, v.slots, v.counted)) in
    let slot : first_free 0 acl.entries ≡ filled.at = omega (arith, filled.slot) in
    let inside = entry_contains_iff (address a b c d) p addr hn ha hp in
    let some_entry : acl.len + 1 == 0 ≡ false = ground arith in
    rw (open_slot, add_ipv4_cidr, slot, some_entry, allows, filled.matches addr)
      (or_iff (any_contains acl.entries addr) (entry_contains e addr) (any_contains_iff acl addr v)
        inside)

deny_all-IsAcl : IsAcl deny_all
unfolding deny_all used
deny_all-IsAcl = record { slots = refl; counted = refl }

-- The list of one configured prefix lets through that prefix, and nothing else.
allows-from_config :
    (cidr : Text) (x : Cidr) (addr : ℕ)
    → parse_ipv4_cidr cidr ≡ some x
    → address x.a x.b x.c x.d < 2 ^ 32
    → x.prefix ≤ 32
    → addr < 2 ^ 32
    → (allows (from_config cidr) addr ≡ true) ↔ InPrefix (address x.a x.b x.c x.d) x.prefix addr
unfolding from_config deny_all
allows-from_config cidr x addr parsed hn hp ha =
    let one =
      allows-add_ipv4_cidr deny_all x.a x.b x.c x.d x.prefix addr deny_all-IsAcl (omega arith) hn ha
        hp in
    rw (parsed, from_config)
      (λ e. elim (one.0 e) [ inl old ↦ absurd (omega arith) | inr new ↦ new ], λ h. one.1 (inr h))

-- The addresses of the three private ranges and of the loopback range.
abbrev pub InPrivateRange : ℕ → Type 0
InPrivateRange addr =
    (addr / 2 ^ 24 ≡ 127)
    ⊎ (addr / 2 ^ 24 ≡ 10)
    ⊎ (addr / 2 ^ 20 ≡ 172 * 16 + 1)
    ⊎ (addr / 2 ^ 16 ≡ 192 * 256 + 168)

private_entries : List (Option AclEntry)
private_entries =
    some (record { network = address 127 0 0 0; mask = prefix_mask 8 })
    ∷ some (record { network = address 10 0 0 0; mask = prefix_mask 8 })
    ∷ some (record { network = address 172 16 0 0; mask = prefix_mask 12 })
    ∷ some (record { network = address 192 168 0 0; mask = prefix_mask 16 })
    ∷ none
    ∷ none
    ∷ none
    ∷ none
    ∷ []

private_lan_lem : private_lan ≡ record { entries = private_entries; len = 4; default_allow = false }
unfolding private_lan private_entries
private_lan_lem = refl

or_nothing : (b : Bool) → (b || false) ≡ b
or_nothing true = refl
or_nothing false = refl

-- The list of the private ranges lets through those and loopback.
allows-private_lan :
    (addr : ℕ) → addr < 2 ^ 32 → (allows private_lan addr ≡ true) ↔ InPrivateRange addr
unfolding allows private_entries
allows-private_lan addr ha =
    let loopback = entry_contains_iff (address 127 0 0 0) 8 addr (omega arith) ha (omega arith) in
    let class_a = entry_contains_iff (address 10 0 0 0) 8 addr (omega arith) ha (omega arith) in
    let class_b = entry_contains_iff (address 172 16 0 0) 12 addr (omega arith) ha (omega arith) in
    let class_c = entry_contains_iff (address 192 168 0 0) 16 addr (omega arith) ha (omega arith) in
    rw (private_lan_lem, or_nothing)
      (or_iff _ _ loopback (or_iff _ _ class_a (or_iff _ _ class_b class_c)))

-- If the setting is not a prefix, because it is empty or malformed, the list that is made of it lets
-- an IPv4 address through exactly if it is in one of the private ranges or in loopback.
pub allows-from_config-none :
    (cidr : Text) (addr : ℕ)
    → parse_ipv4_cidr cidr ≡ none
    → addr < 2 ^ 32
    → (allows (from_config cidr) addr ≡ true) ↔ InPrivateRange addr
unfolding from_config
allows-from_config-none cidr addr malformed ha =
    rw (malformed, from_config) (allows-private_lan addr ha)
