-- ===== src/Tests.antt =====
-- The components at concrete inputs.
pub mod Client
pub mod Clocks
pub mod Codec
pub mod Engines
pub mod Errors
pub mod Hostile
pub mod Messages
pub mod Oids
pub mod RoundTrips
pub mod Security
pub mod Walks
pub mod Writer
