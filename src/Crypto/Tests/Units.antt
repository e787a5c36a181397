-- ===== src/Crypto/Tests/Units.antt =====
-- The unit tests of the crate `crypto` with concrete crates.
use da_concept.Base.{
  ℕ, ◌+◌, ◌-◌, ◌^◌, ◌<◌, ◌≡◌, ◌≢◌, refl, true, List, [], ◌∷◌, ltb, ◌&&◌, if◌then◌else◌, arith,
}
use da_concept.Base.Outcome.{ok, panic}
use da_concept.Crypto.KeyPair.{key_of, key_of-IsKey, prime_value}
use da_concept.Crypto.Std.{is_utf8}
use da_concept.Crypto.Elgamal.{encrypt}
use da_concept.Crypto.UnitTests.{from_bool}
use da_concept.Crypto.UnitTests.Elgamal.{
  assert_format, test_empty_string, test_short_string, test_long_string, test_unicode_string,
  test_invalid_ciphertext, quickcheck_encrypt_decrypt_roundtrip, test_with_fake_data,
  test_serialization_format,
}
use da_concept.Crypto.UnitTests.KeyPair.{
  test_key_generation, test_encrypt_decrypt_roundtrip, test_encrypt_large_message_fails,
  quickcheck_encrypt_decrypt_preserves_message, test_export_import_private_key,
}
use da_concept.Crypto.UnitTests.Format.{assert_format-encrypt}
use da_concept.Crypto.UnitTests.Laws.{IsPlain, Passes, drawn, keypair_tests_lem, elgamal_tests_lem}
use da_concept.Crypto.Tests.Sample.{crates, crates-IsLawful, crates-IsAvailable}

abbrev word : List ℕ
word = b'w' ∷ b'o' ∷ b'r' ∷ b'd' ∷ b's' ∷ []

word-filled : word ≢ []
word-filled e = cc

word-IsPlain : IsPlain word
unfolding is_utf8
word-IsPlain = record {
  bytes = omega arith;
  short = omega arith;
  utf8 = refl;
  nul_free = omega arith;
}

assert_format-encrypt_example :
    (encrypted : List ℕ) × (rng' : ℕ) × (encrypt crates word (key_of 300) 4 ≡ ok (encrypted, rng'))
    × (assert_format crates encrypted ≡ ok tt)
assert_format-encrypt_example =
    assert_format-encrypt crates crates-IsLawful crates-IsAvailable (key_of 300) (key_of-IsKey 300)
      word 4 (omega arith) word-filled (omega arith)

keypair_tests_lem_example :
    (test_encrypt_decrypt_roundtrip crates 4 ≡ ok (4 + 100))
    × (test_encrypt_large_message_fails crates 4 ≡ ok tt)
    × (test_export_import_private_key crates 4 ≡ ok (4 + 1))
    × ((message : ℕ)
        → message < 2 ^ 32
        → quickcheck_encrypt_decrypt_preserves_message crates message 4 ≡ ok (from_bool true))
    × (test_key_generation crates 4 ≡ (
        if ltb 0 (drawn crates crates-IsLawful crates-IsAvailable 4)
          && ltb (drawn crates crates-IsLawful crates-IsAvailable 4) (prime_value - 1)
        then ok (4 + 1)
        else panic))
keypair_tests_lem_example = keypair_tests_lem crates crates-IsLawful crates-IsAvailable 4

elgamal_tests_lem_example :
    Passes crates (test_short_string crates word 4)
    × Passes crates (test_long_string crates word 4)
    × Passes crates (test_with_fake_data crates (word ∷ word ∷ []) 4)
    × (quickcheck_encrypt_decrypt_roundtrip crates word 4 ≡ ok (from_bool true))
    × Passes crates (test_empty_string crates 4)
    × Passes crates (test_unicode_string crates 4)
    × Passes crates (test_invalid_ciphertext crates 4)
    × Passes crates (test_serialization_format crates 4)
elgamal_tests_lem_example =
    elgamal_tests_lem crates crates-IsLawful crates-IsAvailable (word ∷ word ∷ []) word 4
      (word-IsPlain, (word-IsPlain, tt)) word-IsPlain
