-- ===== src/Http.antt =====
-- common/slayer_http_parse.c and include/slayer_http_parse.h: the incremental request parser.
pub mod Parse
pub mod RequestLine
pub mod HeaderSection
pub mod Connection
pub mod Tests
