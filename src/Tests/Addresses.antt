-- ===== src/Tests/Addresses.antt =====
-- Prefixes and allowlists of src/ntp/protection.rs and src/ntp/cidr_parse.rs.
use rust_gps_ntp.Common.{◌≡◌, ◌↔◌, refl, true, some, [], arith}
use rust_gps_ntp.Protection.Acl.{deny_all, address, from_config, allows}
use rust_gps_ntp.Protection.Acl.Lists.{IsAcl, used, InPrivateRange, allows-from_config-none}
use rust_gps_ntp.Protection.Cidr.{Cidr, parse_ipv4_cidr}
use rust_gps_ntp.Protection.Cidr.RoundTrip.{print_cidr, parse_ipv4_cidr-print_cidr}

abbrev office : Cidr
office = record { a = 192; b = 168; c = 10; d = 0; prefix = 24 }

parse_ipv4_cidr-print_cidr_example : parse_ipv4_cidr (print_cidr office) ≡ some office
parse_ipv4_cidr-print_cidr_example =
    parse_ipv4_cidr-print_cidr office
      (omega arith, omega arith, omega arith, omega arith, omega arith)

nothing-IsAcl : IsAcl deny_all
unfolding deny_all used
nothing-IsAcl = record { slots = refl; counted = refl }

-- The setting is empty.
allows-from_config-none_example :
    (allows (from_config []) (address 192 168 1 7) ≡ true) ↔ InPrivateRange (address 192 168 1 7)
unfolding parse_ipv4_cidr
allows-from_config-none_example =
    allows-from_config-none [] (address 192 168 1 7) refl (omega arith)
