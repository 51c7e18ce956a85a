-- ===== src/Hash.antt =====
-- src/util/hash.h and src/util/hash.c: algorithms, the codecs of digests, and hash URIs.
pub mod Algo
pub mod Hex
pub mod Base64
pub mod Uri
