-- ===== src/Crypto/KeyPair.antt =====
-- What makes a key of crypto/src/keypair.rs a key, and what its operations give.
mod Laws
pub use Laws.*
