-- ===== src/Json.antt =====
-- common/simplejson.c, common/serializejson.c, common/jsonhelper.c: JSON texts and their values.
pub mod Value
pub mod Print
pub mod Scan
pub mod Parse
pub mod RoundTrip
pub mod Depth
pub mod Leaves
pub mod Fuel
pub mod Strings
pub mod Order
pub mod Skip
pub mod Xml
pub mod Tests
