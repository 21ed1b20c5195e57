-- ===== src/Link/Print.antt =====
-- `mbus_link_msgToStr` with `_addChar`, `_addStr` and `msgParsedToStr`: a received message as text in
-- a buffer of the caller. The pointer is an offset into the buffer, and `none` is a write outside it.
pub mod Format
pub mod Text
pub mod Buffer
pub mod Store
pub mod Expected
pub mod Written
pub mod Bound
pub mod Overrun
pub mod Logged
