-- ===== src/Text.antt =====
-- common: the encodings of texts.
pub mod Url
pub mod Utf8
pub mod Tests
