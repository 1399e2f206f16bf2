-- ===== src/Json/RoundTrip.antt =====
-- A printed value is decoded to that value.
pub mod Strings
pub mod Numbers
pub mod Shape
pub mod Steps
pub mod Names
pub mod Values
pub mod Chars
