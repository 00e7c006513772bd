-- ===== src/Ber/RoundTrip.antt =====
-- The reader of src/BerReader.cpp on what the writer of src/BerWriter.cpp appends.
pub mod Header
pub mod Numbers
pub mod Oid
pub mod OidContent
pub mod Scope
pub mod Values
pub mod Varbinds
