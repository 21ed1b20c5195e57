-- ===== src/Demos.antt =====
-- Small programs of target_teensy3 that are built on the physical layer and the link.
pub mod Station
pub mod Ping
pub mod Sniffer
pub mod Bridge
pub mod Toggle
