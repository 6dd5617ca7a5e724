-- ===== src/Json/RoundTrip.antt =====
-- What the printer prints is read back.
pub mod Strings
pub mod Numbers
pub mod Values
