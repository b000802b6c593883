-- ===== src/Wire.antt =====
-- The wire format that both sides share: numbers as bytes, the libraries that are called, packets.
pub mod Struct
pub mod Crypto
pub mod Packet
pub mod Framing
pub mod Construct
pub mod Size
pub mod RoundTrip
pub mod Verify
pub mod Total
pub mod Stream
pub mod Reassembly
pub mod Errors
pub mod Messages
pub mod Consumption
