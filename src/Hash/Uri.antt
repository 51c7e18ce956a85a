-- ===== src/Hash/Uri.antt =====
-- `hash_uri_t`, its parsers and its printer, of src/util/hash.c.
pub mod Match
pub mod Parse
pub mod Format
pub mod Codec
pub mod RoundTrip
pub mod Written
pub mod Decoded
pub mod Laws
