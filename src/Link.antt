-- ===== src/Link.antt =====
-- common/mbus/mbus_link.c and mbus_link.h: messages of nibbles with a checksum, parsed and built.
pub mod Types
pub mod Parse
pub mod Body
pub mod Build
pub mod Core
pub mod Deliver
pub mod Damage
pub mod Roundtrip
pub mod Print
