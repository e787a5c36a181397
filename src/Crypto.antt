-- ===== src/Crypto.antt =====
-- The crate `crypto`: ElGamal keys (crypto/src/keypair.rs), and the encryption of byte strings
-- (crypto/src/elgamal.rs).
pub mod Types
pub mod Crates
pub mod Std
pub mod PrivateKey
pub mod PublicKey
pub mod KeyPair
pub mod Elgamal
pub mod UnitTests
pub mod Tests
