-- ===== src/Phy.antt =====
-- common/mbus/mbus_phy.c and mbus_phy.h: the bit-banged physical layer of the M-Bus. This module
-- joins its receiver and its transmitter as `MbusPhyStruct` does.
pub mod State
pub mod Ascii
pub mod Rx
pub mod Tx
pub mod Join
pub mod Loop
