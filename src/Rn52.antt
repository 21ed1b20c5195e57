-- ===== src/Rn52.antt =====
-- common/rn52/rn52.c: the driver of the RN52 Bluetooth module.
-- The queue of commands is filled by `rn52_avrcp_*` and emptied by the update, which sends one
-- command at a time and waits for the answer. Debug output is left out.
pub mod State
pub mod Chars
pub mod Commands
pub mod Update
pub mod Asked
pub mod Text
pub mod Total
pub mod Line
pub mod Status
pub mod Sending
pub mod Answer
