-- ===== src/Crypto/UnitTests/KeyPair.antt =====
-- The tests of crypto/src/keypair.rs. What quickcheck makes up is an argument of the test.
use da_concept.Base.{ℕ, zero, suc, ◌+◌, ◌-◌, not, length, leb, ltb, ◌==◌, text_eq, if◌then◌else◌}
use da_concept.Base.Outcome.{ok, err, panic, unwrap, unwrap_ok, ◌>>=◌, ◌>>◌}
use da_concept.Crypto.Types.{PrivateKey, Ciphertext}
use da_concept.Crypto.Crates.{Crates, Result}
use da_concept.Crypto.PrivateKey
use da_concept.Crypto.PrivateKey.{get_secure_random_bytes}
use da_concept.Crypto.PublicKey
use da_concept.Crypto.UnitTests.{TestResult, from_bool, error, discard, assert}
use da_concept.Crypto.UnitTests.Elgamal.{is_invalid_ciphertext}

module _ (crates : Crates) where
  unfoldable pub test_key_generation : ℕ → Result crates ℕ
  test_key_generation rng = do
    (key, rng) ← PrivateKey.generate crates rng
    let public_key = key.public_key
    expected ← unwrap (crates.modpow public_key.generator key.private_key public_key.prime)
    assert (public_key.public_exponent == expected)
    assert (ltb 0 key.private_key)
    assert (ltb key.private_key (public_key.prime - 1))
    ok rng

  -- The loop from `i` on, with `left` rounds to go.
  unfoldable pub assert_messages : ℕ → ℕ → PrivateKey → ℕ → Result crates ℕ
  assert_messages zero i private_key rng = ok rng
  assert_messages (suc left) i private_key rng = do
    (ciphertext, rng) ← unwrap_ok (PublicKey.encrypt crates private_key.public_key i rng)
    decrypted ← unwrap_ok (PrivateKey.decrypt crates private_key ciphertext)
    assert (i == decrypted)
    assert_messages left (i + 1) private_key rng

  unfoldable pub test_encrypt_decrypt_roundtrip : ℕ → Result crates ℕ
  unfolding assert_messages
  test_encrypt_decrypt_roundtrip rng = do
    (private_key, rng) ← PrivateKey.generate crates rng
    assert_messages 99 1 private_key rng

  unfoldable pub test_encrypt_large_message_fails : ℕ → Result crates (Unit {0})
  test_encrypt_large_message_fails rng = do
    (private_key, rng) ← PrivateKey.generate crates rng
    let public_key = private_key.public_key
    assert (is_invalid_ciphertext (PublicKey.encrypt crates public_key (public_key.prime + 1) rng))

  unfoldable pub test_secure_random_bytes : ℕ → Result crates ℕ
  test_secure_random_bytes rng = do
    (bytes1, rng) ← get_secure_random_bytes crates rng
    (bytes2, rng) ← get_secure_random_bytes crates rng
    assert (not (text_eq bytes1 bytes2))
    assert (length bytes1 == 32)
    ok rng

  abbrev pub compared : ℕ → Result crates ℕ → Result crates TestResult
  compared message (ok decrypted) = ok (from_bool (message == decrypted))
  compared message (err e) = ok (error "Decryption failed")
  compared message panic = panic

  abbrev pub checked : PrivateKey → ℕ → Result crates (Ciphertext × ℕ) → Result crates TestResult
  checked private_key message (ok (ciphertext, rng)) =
      compared message (PrivateKey.decrypt crates private_key ciphertext)
  checked private_key message (err e) = ok (error "Encryption failed")
  checked private_key message panic = panic

  unfoldable pub quickcheck_encrypt_decrypt_preserves_message : ℕ → ℕ → Result crates TestResult
  quickcheck_encrypt_decrypt_preserves_message message rng = do
    (private_key, rng) ← PrivateKey.generate crates rng
    if leb private_key.public_key.prime message
        then ok discard
        else checked private_key message
            (PublicKey.encrypt crates private_key.public_key message rng)

  unfoldable pub test_different_keys_produce_different_ciphertexts : ℕ → Result crates ℕ
  test_different_keys_produce_different_ciphertexts rng = do
    (key1, rng) ← PrivateKey.generate crates rng
    (key2, rng) ← PrivateKey.generate crates rng
    (ciphertext1, rng) ← unwrap_ok (PublicKey.encrypt crates key1.public_key 42 rng)
    (ciphertext2, rng) ← unwrap_ok (PublicKey.encrypt crates key2.public_key 42 rng)
    assert (not (ciphertext1.c1 == ciphertext2.c1))
    assert (not (ciphertext1.c2 == ciphertext2.c2))
    ok rng

  unfoldable pub test_export_import_private_key : ℕ → Result crates ℕ
  test_export_import_private_key rng = do
    (key1, rng) ← PrivateKey.generate crates rng
    key2 ← unwrap_ok (PrivateKey.try_from crates (PrivateKey.get_encoded_private_key crates key1))
    assert (key1.private_key == key2.private_key)
    ok rng
