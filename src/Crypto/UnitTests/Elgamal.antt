-- ===== src/Crypto/UnitTests/Elgamal.antt =====
-- The tests of crypto/src/elgamal.rs. What the crates fake, rand and quickcheck make up is an
-- argument of the test.
use da_concept.Base.{
  ℕ, zero, suc, ◌+◌, ◌-◌, Bool, not, List, [], ◌∷◌, ◌++◌, length, leb, ltb, ◌==◌, text_eq,
  if◌then◌else◌,
}
use da_concept.Base.Outcome.{Outcome, ok, err, panic, unwrap_ok, ◌>>=◌, ◌>>◌}
use da_concept.Crypto.Types.{PrivateKey, CryptoError, invalid_ciphertext}
use da_concept.Crypto.Crates.{Crates, Result}
use da_concept.Crypto.PrivateKey
use da_concept.Crypto.PrivateKey.{codes}
use da_concept.Crypto.Elgamal.{encrypt, decrypt, read_u32}
use da_concept.Crypto.UnitTests.{TestResult, from_bool, error, assert}

module _ {E : Type 0} where
  -- `matches!(result, Err(CryptoError::InvalidCiphertext))`
  abbrev pub is_invalid_ciphertext {ℓ} : {A : Type ℓ} → Outcome (CryptoError E) A → Bool
  is_invalid_ciphertext (err invalid_ciphertext) = Bool.true
  is_invalid_ciphertext _ = Bool.false

-- The UTF-8 bytes of the text with characters of one to four bytes.
abbrev pub unicode : List ℕ
unicode =
    codes "Hello, "
    ++ (0xE4 ∷ 0xB8 ∷ 0x96 ∷ 0xE7 ∷ 0x95 ∷ 0x8C ∷ [])
    ++ codes "! "
    ++ (0xF0 ∷ 0x9F ∷ 0x98 ∷ 0x8A ∷ [])
    ++ codes " UTF-8 test "
    ++ (0xC3 ∷ 0xB1 ∷ 0xC3 ∷ 0xA1 ∷ 0xC3 ∷ 0xA9 ∷ 0xC3 ∷ 0xAD ∷ 0xC3 ∷ 0xB3 ∷ 0xC3 ∷ 0xBA ∷ [])

-- `data[i] ^= 0xFF` on a byte.
unfoldable pub flip_at : ℕ → List ℕ → List ℕ
flip_at i [] = []
flip_at zero (b ∷ data_bytes) = (0xFF - b) ∷ data_bytes
flip_at (suc i) (b ∷ data_bytes) = b ∷ flip_at i data_bytes

module _ (crates : Crates) where
  -- Encrypt, decrypt and compare.
  unfoldable pub assert_same : List ℕ → PrivateKey → ℕ → Result crates ℕ
  assert_same message private_key rng = do
    (encrypted, rng) ← encrypt crates message private_key rng
    decrypted ← unwrap_ok (decrypt crates encrypted private_key)
    assert (text_eq message decrypted)
    ok rng

  unfoldable pub test_short_string : List ℕ → ℕ → Result crates ℕ
  unfolding assert_same
  test_short_string message rng = do
    (private_key, rng) ← PrivateKey.generate crates rng
    assert_same message private_key rng

  unfoldable pub test_empty_string : ℕ → Result crates ℕ
  unfolding assert_same
  test_empty_string rng = do
    (private_key, rng) ← PrivateKey.generate crates rng
    assert_same [] private_key rng

  -- `random_string(1000)` is the message.
  unfoldable pub test_long_string : List ℕ → ℕ → Result crates ℕ
  unfolding assert_same
  test_long_string message rng = do
    (private_key, rng) ← PrivateKey.generate crates rng
    assert_same message private_key rng

  unfoldable pub test_unicode_string : ℕ → Result crates ℕ
  unfolding assert_same
  test_unicode_string rng = do
    (private_key, rng) ← PrivateKey.generate crates rng
    assert_same unicode private_key rng

  unfoldable pub test_invalid_ciphertext : ℕ → Result crates ℕ
  test_invalid_ciphertext rng = do
    (private_key, rng) ← PrivateKey.generate crates rng
    assert (is_invalid_ciphertext (decrypt crates (1 ∷ 2 ∷ 3 ∷ []) private_key))
    let invalid : List ℕ = 0 ∷ 0 ∷ 0 ∷ 1 ∷ 0 ∷ 0 ∷ 0 ∷ 0 ∷ []
    assert (is_invalid_ciphertext (decrypt crates invalid private_key))
    ok rng

  -- `if let Ok(decrypted) = result { assert_ne!(…) }`
  abbrev pub assert_differs : List ℕ → Result crates (List ℕ) → Result crates (Unit {0})
  assert_differs message (ok decrypted) = assert (not (text_eq message decrypted))
  assert_differs message (err e) = ok tt
  assert_differs message panic = panic

  unfoldable pub test_different_keys : List ℕ → ℕ → Result crates ℕ
  test_different_keys message rng = do
    (key1, rng) ← PrivateKey.generate crates rng
    (key2, rng) ← PrivateKey.generate crates rng
    (encrypted, rng) ← encrypt crates message key1 rng
    assert_differs message (decrypt crates encrypted key2)
    correct ← unwrap_ok (decrypt crates encrypted key1)
    assert (text_eq message correct)
    ok rng

  unfoldable pub test_corrupted_data : List ℕ → ℕ → Result crates ℕ
  unfolding flip_at
  test_corrupted_data message rng = do
    (private_key, rng) ← PrivateKey.generate crates rng
    (encrypted, rng) ← encrypt crates message private_key rng
    if ltb 10 (length encrypted)
        then assert_differs (codes "Important data")
            (decrypt crates (flip_at 10 encrypted) private_key)
        else ok tt
    ok rng

  abbrev pub same_as : List ℕ → Result crates (List ℕ) → Result crates TestResult
  same_as message (ok decrypted) = ok (from_bool (text_eq message decrypted))
  same_as message (err e) = ok (error "Decryption failed")
  same_as message panic = panic

  unfoldable pub quickcheck_encrypt_decrypt_roundtrip : List ℕ → ℕ → Result crates TestResult
  quickcheck_encrypt_decrypt_roundtrip message rng = do
    (private_key, rng) ← PrivateKey.generate crates rng
    (encrypted, rng) ← encrypt crates message private_key rng
    same_as message (decrypt crates encrypted private_key)

  unfoldable pub assert_all : List (List ℕ) → PrivateKey → ℕ → Result crates ℕ
  unfolding assert_same
  assert_all [] private_key rng = ok rng
  assert_all (sentence ∷ sentences) private_key rng = do
    rng ← assert_same sentence private_key rng
    assert_all sentences private_key rng

  -- Ten sentences, of the crate fake.
  unfoldable pub test_with_fake_data : List (List ℕ) → ℕ → Result crates ℕ
  unfolding assert_all
  test_with_fake_data sentences rng = do
    (private_key, rng) ← PrivateKey.generate crates rng
    assert_all sentences private_key rng

  -- One round of the loop over the stored ciphertexts, with the new offset.
  unfoldable pub skip : List ℕ → ℕ → Result crates ℕ
  skip encrypted offset = do
    assert (not (ltb (length encrypted) (offset + 8)))
    c1_len ← read_u32 crates encrypted offset
    let offset1 = offset + 4
    assert (not (ltb (length encrypted) (offset1 + c1_len + 4)))
    let offset2 = offset1 + c1_len
    c2_len ← read_u32 crates encrypted offset2
    let offset3 = offset2 + 4
    assert (not (ltb (length encrypted) (offset3 + c2_len)))
    ok (offset3 + c2_len)

  unfoldable pub skip_all : ℕ → List ℕ → ℕ → Result crates ℕ
  unfolding skip
  skip_all zero encrypted offset = ok offset
  skip_all (suc count) encrypted offset = do
    offset ← skip encrypted offset
    skip_all count encrypted offset

  -- What is asserted of the bytes.
  unfoldable pub assert_format : List ℕ → Result crates (Unit {0})
  unfolding skip_all
  assert_format encrypted = do
    assert (leb 4 (length encrypted))
    count ← read_u32 crates encrypted 0
    assert (ltb 0 count)
    offset ← skip_all count encrypted 4
    assert (offset == length encrypted)

  unfoldable pub test_serialization_format : ℕ → Result crates (Unit {0})
  unfolding assert_format
  test_serialization_format rng = do
    (private_key, rng) ← PrivateKey.generate crates rng
    (encrypted, rng) ← encrypt crates (codes "Test") private_key rng
    assert_format encrypted
