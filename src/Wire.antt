-- ===== src/Wire.antt =====
-- crates/mimo26-wire: the frames between the coordinator and the Sparks.
pub mod Naive
pub mod Error
pub mod Layout
pub mod Bytes
pub mod Row
pub mod Header
pub mod Crc
pub mod Request
pub mod Return
pub mod RoundTrip
pub mod View
pub mod Stream
pub mod Sum
mod Tests
