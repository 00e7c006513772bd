-- ===== src/Ber.antt =====
-- include/snmpio/ber and src/BerReader.cpp, src/BerWriter.cpp: the BER codec.
pub mod Tag
pub mod Writer
pub mod Reader
pub mod RoundTrip
