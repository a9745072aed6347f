-- ===== src/Crypto/RoundTrip.antt =====
-- Decrypting what was encrypted: the chunk loops, and the two directions joined.
pub mod Chunks
pub mod Gb1
pub mod Gb3
pub mod Blob
pub mod Whole
