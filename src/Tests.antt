-- ===== src/Tests.antt =====
-- Runs of the code on concrete inputs, and the theorems at such inputs.
mod Limiter
mod Addresses
mod Packets
mod Clock
mod Devices
mod Screen
mod Log
mod Receiver
mod Service
mod Start
mod Pages
