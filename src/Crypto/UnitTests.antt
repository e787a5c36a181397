-- ===== src/Crypto/UnitTests.antt =====
-- The unit tests inside crypto/src/elgamal.rs and crypto/src/keypair.rs, as functions of what they
-- are given. A failed assertion is a panic; a text is its bytes.
pub mod Elgamal
pub mod KeyPair
pub mod Format
pub mod Laws
use da_concept.Base.{String, Bool, true, false, if◌then◌else◌}
use da_concept.Base.Outcome.{Outcome, ok, panic}
use da_concept.Crypto.Crates.{Crates, Result}

-- `quickcheck::TestResult`, by the functions that make one.
pub data TestResult : Type 0 where
  from_bool : Bool → TestResult
  error : String → TestResult
  discard : TestResult

-- `assert!`
abbrev pub assert : {E : Type 0} → Bool → Outcome E (Unit {0})
assert b = if b then ok tt else panic
