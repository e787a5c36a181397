-- ===== src/Crypto/PublicKey.antt =====
-- `impl PublicKey` of crypto/src/keypair.rs.
use da_concept.Base.{ℕ, ◌-◌, ◌*◌, List, leb}
use da_concept.Base.Outcome.{ok, unwrap, reject_if, ◌>>=◌, ◌>>◌}
use da_concept.Crypto.Types.{PublicKey, Ciphertext, invalid_ciphertext}
use da_concept.Crypto.Crates.{Crates, Result, rem}
use da_concept.Crypto.PrivateKey.{get_secure_random_bytes}

module _ (crates : Crates) where
  -- `&self.prime - 1` cannot underflow: a message below the prime has been seen.
  unfoldable pub encrypt : PublicKey → ℕ → ℕ → Result crates (Ciphertext × ℕ)
  unfolding get_secure_random_bytes
  encrypt key message rng = do
    reject_if (leb key.prime message) invalid_ciphertext
    (bytes, rng) ← get_secure_random_bytes crates rng
    y ← rem (crates.from_bytes_be bytes) (key.prime - 1)
    c1 ← unwrap (crates.modpow key.generator y key.prime)
    s ← unwrap (crates.modpow key.public_exponent y key.prime)
    c2 ← rem (message * s) key.prime
    ok (record { c1 = c1; c2 = c2 }, rng)

  unfoldable pub get_encoded_public_key : PublicKey → List ℕ
  get_encoded_public_key key = crates.encode (crates.to_bytes_le key.public_exponent)
