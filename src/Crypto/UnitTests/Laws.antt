-- ===== src/Crypto/UnitTests/Laws.antt =====
-- Which unit tests of the crate `crypto` can fail.
use da_concept.Base.{
  ℕ, zero, suc, ◌+◌, ◌*◌, ◌-◌, ◌%◌, ◌^◌, ◌≤◌, ◌<◌, ◌≡◌, ◌≢◌, refl, true, List, [], ◌∷◌, All, length,
  text_eq_iff, ==_iff, ltb, if◌then◌else◌, ◌&&◌, arith,
}
use da_concept.Base.Outcome.{ok, err, panic}
use da_concept.Crypto.Types.{PrivateKey, invalid_ciphertext}
use da_concept.Crypto.Crates.{Crates, Result, IsLawful, IsAvailable, IsByte}
use da_concept.Crypto.Std.{from_le_bytes, is_utf8}
use da_concept.Crypto.PrivateKey
use da_concept.Crypto.KeyPair.{
  IsKey, key_of, key_of-IsKey, prime_value, generate_key_of, try_from-key_of, decrypt-encrypt,
  encrypt_too_large,
}
use da_concept.Crypto.Elgamal.RoundTrip.{decrypt-encrypt_nul_free}
use da_concept.Crypto.Elgamal.{read_u32, read, read_all, parse, decrypt}
use da_concept.Crypto.UnitTests.Format.{assert_format-encrypt}
use da_concept.Crypto.UnitTests.{from_bool}
use da_concept.Crypto.UnitTests.Elgamal.{
  unicode, assert_same, assert_all, test_empty_string, test_short_string, test_long_string,
  test_unicode_string, test_invalid_ciphertext, quickcheck_encrypt_decrypt_roundtrip,
  test_with_fake_data, test_serialization_format,
}
use da_concept.Crypto.UnitTests.KeyPair.{
  test_key_generation, assert_messages, test_encrypt_decrypt_roundtrip,
  test_encrypt_large_message_fails, quickcheck_encrypt_decrypt_preserves_message,
  test_export_import_private_key,
}

-- A text of UTF-8 without NUL bytes, short enough for the count of its chunks to fit 32 bits. Every
-- text that the tests make up is one.
pub record IsPlain (text : List ℕ) : Type 0 where
  pub bytes : All IsByte text
  pub short : length text ≤ 4 * (2 ^ 32 - 1)
  pub utf8 : is_utf8 text ≡ true
  pub nul_free : All (λ b. 0 < b) text

empty-IsPlain : IsPlain []
unfolding is_utf8
empty-IsPlain = record { bytes = tt; short = omega arith; utf8 = refl; nul_free = tt }

unicode-IsPlain : IsPlain unicode
unfolding is_utf8
unicode-IsPlain = record {
  bytes = omega arith;
  short = omega arith;
  utf8 = refl;
  nul_free = omega arith;
}

-- A run that returns.
abbrev pub Passes : (crates : Crates) {A : Type 0} → Result crates A → Type 0
Passes crates {A} run = (a : A) × (run ≡ ok a)

abbrev word : List ℕ
word = PrivateKey.codes "Test"

word-filled : word ≢ []
word-filled e = cc

module _ (crates : Crates) (law : IsLawful crates) (available : IsAvailable crates) where
  -- The exponent that the n-th random request leads to.
  abbrev pub drawn : ℕ → ℕ
  drawn rng = crates.from_bytes_be ((available rng).0) % prime_value

  assert_messages_lem :
      (key : PrivateKey) (valid : IsKey key) (left i rng : ℕ)
      → i + left ≤ 2 ^ 32
      → assert_messages crates left i key rng ≡ ok (rng + left)
  unfolding assert_messages
  assert_messages_lem key valid zero i rng h = ground arith
  assert_messages_lem key valid (suc left) i rng h =
      let (c, enc, lt1, lt2, dec) =
        decrypt-encrypt crates law key valid available i rng (omega (arith, valid.wide)) in
      rw (enc, dec)
        (ground (arith, assert_messages_lem key valid left (i + 1) (rng + 1) (omega arith)))

  -- With lawful crates and random bytes at hand, whatever they are, the tests of the round trip, of
  -- a large message and of export and import pass, the quickcheck property holds of every 32-bit
  -- message, and the test of the generation passes exactly if the exponent that is drawn is neither
  -- 0 nor one below the prime.
  pub keypair_tests_lem :
      (rng : ℕ)
      → (test_encrypt_decrypt_roundtrip crates rng ≡ ok (rng + 100))
        × (test_encrypt_large_message_fails crates rng ≡ ok tt)
        × (test_export_import_private_key crates rng ≡ ok (rng + 1))
        × ((message : ℕ)
            → message < 2 ^ 32
            → quickcheck_encrypt_decrypt_preserves_message crates message rng ≡ ok (from_bool true))
        × (test_key_generation crates rng ≡ (
            if ltb 0 (drawn rng) && ltb (drawn rng) (prime_value - 1) then ok (rng + 1) else panic))
  unfolding test_encrypt_decrypt_roundtrip test_encrypt_large_message_fails
      test_export_import_private_key quickcheck_encrypt_decrypt_preserves_message
      test_key_generation
  keypair_tests_lem rng =
      let n : ℕ = crates.from_bytes_be (available rng).0 in
      let key : PrivateKey = key_of n in
      let valid : IsKey key = key_of-IsKey n in
      let made = generate_key_of crates law available rng in
      (
        rw made (ground (arith, assert_messages_lem key valid 99 1 (rng + 1) (omega arith))),
        rw (made, encrypt_too_large crates law key valid (prime_value + 1) (rng + 1) (omega arith)),
        rw (made, try_from-key_of crates law n)
            (ground (arith, ==_iff key.private_key key.private_key)),
        λ message small.
            let (c, enc, lt1, lt2, dec) =
              decrypt-encrypt crates law key valid available message (rng + 1) (omega arith) in
            rw (made, enc, dec) (ground (arith, ==_iff message message)),
        rw (made, law.modpow-eq 2 (n % prime_value) prime_value (omega arith))
            (ground (arith, ==_iff key.public_key.public_exponent key.public_key.public_exponent)),
      )

  module _ (key : PrivateKey) (valid : IsKey key) where
    assert_same-Passes :
        (text : List ℕ) (rng : ℕ) → IsPlain text → Passes crates (assert_same crates text key rng)
    unfolding assert_same
    assert_same-Passes text rng plain =
        let (stored, rng', enc, dec) =
          decrypt-encrypt_nul_free crates law available key valid text rng plain.bytes plain.short
            plain.utf8 plain.nul_free in
        (rng', rw (enc, dec) (ground (arith, text_eq_iff text text)))

    assert_all-Passes :
        (texts : List (List ℕ)) (rng : ℕ)
        → All IsPlain texts
        → Passes crates (assert_all crates texts key rng)
    unfolding assert_all
    assert_all-Passes [] rng plain = (rng, refl)
    assert_all-Passes (text ∷ texts) rng (here, plain) =
        let (rng1, e) = assert_same-Passes text rng here in
        let (rng2, f) = assert_all-Passes texts rng1 plain in (rng2, rw (e, f))

  too_short : (key : PrivateKey) → decrypt crates (1 ∷ 2 ∷ 3 ∷ []) key ≡ err invalid_ciphertext
  unfolding decrypt parse
  too_short key = refl

  malformed :
      (key : PrivateKey)
      → decrypt crates (0 ∷ 0 ∷ 0 ∷ 1 ∷ 0 ∷ 0 ∷ 0 ∷ 0 ∷ []) key ≡ err invalid_ciphertext
  unfolding decrypt parse read_u32 read_all read from_le_bytes
  malformed key = refl

  -- With lawful crates and random bytes at hand, whatever they are, `test_short_string`,
  -- `test_long_string`, `test_with_fake_data` and `quickcheck_encrypt_decrypt_roundtrip` pass where
  -- the texts that they make up are UTF-8 without NUL bytes and short enough for the count of their
  -- chunks to fit 32 bits, and `test_empty_string`, `test_unicode_string`, `test_invalid_ciphertext`
  -- and `test_serialization_format` pass. Nothing is said of `test_different_keys` and
  -- `test_corrupted_data`.
  pub elgamal_tests_lem :
      (texts : List (List ℕ)) (text : List ℕ) (rng : ℕ)
      → All IsPlain texts
      → IsPlain text
      → Passes crates (test_short_string crates text rng)
        × Passes crates (test_long_string crates text rng)
        × Passes crates (test_with_fake_data crates texts rng)
        × (quickcheck_encrypt_decrypt_roundtrip crates text rng ≡ ok (from_bool true))
        × Passes crates (test_empty_string crates rng)
        × Passes crates (test_unicode_string crates rng)
        × Passes crates (test_invalid_ciphertext crates rng)
        × Passes crates (test_serialization_format crates rng)
  unfolding test_short_string test_long_string test_with_fake_data
      quickcheck_encrypt_decrypt_roundtrip test_empty_string test_unicode_string
      test_invalid_ciphertext test_serialization_format
  elgamal_tests_lem texts text rng plains plain =
      let n : ℕ = crates.from_bytes_be (available rng).0 in
      let key : PrivateKey = key_of n in
      let valid : IsKey key = key_of-IsKey n in
      let made = generate_key_of crates law available rng in
      let (rng1, same) = assert_same-Passes key valid text (rng + 1) plain in
      let (rng2, all_same) = assert_all-Passes key valid texts (rng + 1) plains in
      let (rng3, empty) = assert_same-Passes key valid [] (rng + 1) empty-IsPlain in
      let (rng4, wide) = assert_same-Passes key valid unicode (rng + 1) unicode-IsPlain in
      let (stored, rng5, enc, dec) =
        decrypt-encrypt_nul_free crates law available key valid text (rng + 1) plain.bytes
          plain.short plain.utf8 plain.nul_free in
      let (bytes, rng6, enc6, format) =
        assert_format-encrypt crates law available key valid word (rng + 1) (omega arith)
          word-filled (omega arith) in
      (
        (rng1, rw (made, same)),
        (rng1, rw (made, same)),
        (rng2, rw (made, all_same)),
        rw (made, enc, dec) (ground (arith, text_eq_iff text text)),
        (rng3, rw (made, empty)),
        (rng4, rw (made, wide)),
        (rng + 1, rw (made, too_short key, malformed key) refl),
        (tt, rw (made, enc6) format),
      )
