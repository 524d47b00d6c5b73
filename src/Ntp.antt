-- ===== src/Ntp.antt =====
-- src/ntp/mod.rs: the NTP server, its packets and its clock discipline.
pub mod Bytes
pub mod Timestamp
pub mod Packet
pub mod Float
pub mod Server
pub mod Pulse
pub mod Params
pub mod Mode6
pub mod Poll
pub mod Life
