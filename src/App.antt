-- ===== src/App.antt =====
-- target_teensy3/src/app_demo.cpp: the adapter acts as the CD changer. Messages of the head unit are
-- decoded into simple commands, which drive the Bluetooth module, and a state machine tells the head
-- unit that a disk is playing.
pub mod State
pub mod Decode
pub mod Update
pub mod Inv
pub mod Total
pub mod Playing
pub mod Tracks
pub mod Main
