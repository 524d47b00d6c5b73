-- ===== src/Protection.antt =====
-- src/ntp/protection.rs and src/ntp/cidr_parse.rs: the per-client rate limiter, the address
-- allowlist and the parser of its configuration.
pub mod Limiter
pub mod Acl
pub mod Cidr
