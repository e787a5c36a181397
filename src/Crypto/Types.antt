-- ===== src/Crypto/Types.antt =====
-- crypto/src/types.rs and crypto/src/errors.rs. A `BigUint` is its value.
use da_concept.Base.{ℕ}

pub record PublicKey : Type 0 where
  pub prime : ℕ
  pub generator : ℕ
  pub public_exponent : ℕ

pub record PrivateKey : Type 0 where
  pub private_key : ℕ
  pub public_key : PublicKey

pub record Ciphertext : Type 0 where
  pub c1 : ℕ
  pub c2 : ℕ

-- `DecodeError` is the type of that name in the crate base64.
pub data CryptoError (DecodeError : Type 0) : Type 0 where
  prime_setup invalid_private_key invalid_ciphertext : CryptoError DecodeError
  base64_decoding : DecodeError → CryptoError DecodeError
  random_generation_error decode_decrypted_message : CryptoError DecodeError
