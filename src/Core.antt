-- ===== src/Core.antt =====
-- tintin-core/src: the shared library of the clients, over the cryptographic crates it calls.
pub mod Crypto
pub mod Error
pub mod Keys
pub mod Cipher
pub mod Message
pub mod Ratchet
pub mod Session
pub mod Tests
