-- ===== src/Json/RoundTrip.antt =====
-- What Serialize wrote is parsed back, for a value without floats.
pub mod Plain
pub mod Steps
pub mod Values
