-- ===== src/Codec/RoundTrip.antt =====
-- Decoding what was encoded gives the value back: decode_field_value after encode_value_bytes.
pub mod Shaped
pub mod Numeric
pub mod Text
pub mod Times
pub mod Whole
pub mod Made
