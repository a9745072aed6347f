-- ===== src/Crypto.antt =====
-- simple/crypto.go: the GB1, GB2 and GB3 blob formats and the GKM1 manifest envelope.
pub mod Format
pub mod Aead
pub mod Header
pub mod Encrypt
pub mod Decrypt
pub mod RoundTrip
pub mod Safety
pub mod Toy
mod Tests
pub mod Envelope
