-- ===== src/Crypto/Tests.antt =====
-- Concrete runs of the crate `crypto`, and its theorems at concrete inputs.
pub mod Sample
mod Units
use Sample.{crates, crates-IsLawful, crates-IsAvailable}
use da_concept.Base.{
  ℕ, ◌+◌, ◌*◌, ◌≤◌, ◌<◌, ◌≡◌, ◌⊎◌, refl, List, [], ◌∷◌, ◌++◌, length, some, true, arith,
}
use da_concept.Base.Outcome.{ok, err, panic}
use da_concept.Crypto.Types.{PrivateKey, Ciphertext, invalid_ciphertext}
use da_concept.Crypto.Std.{is_utf8, chunks, to_le_bytes, from_le_bytes, as_u32}
use da_concept.Crypto.PrivateKey
use da_concept.Crypto.PublicKey
use da_concept.Crypto.KeyPair.{
  IsKey, key_of, key_of-IsKey, generate_lem, try_from-get_encoded_private_key, decrypt-encrypt,
  encrypt_too_large,
}
use da_concept.Crypto.Elgamal
use da_concept.Crypto.Elgamal.{encrypt, decrypt, parse, store_all}
use da_concept.Crypto.Elgamal.Format.{parse-store_all}
use da_concept.Crypto.Elgamal.Padding.{words}
use da_concept.Crypto.Elgamal.RoundTrip.{result, decrypt-encrypt_text, decrypt-encrypt_nul_free}
use da_concept.Crypto.Elgamal.Safety.{parse_cases}
use da_concept.Crypto.Elgamal.Panic.{HasZero, decrypt_panic}

-- A key over the prime 7, which runs.
abbrev small_key : PrivateKey
small_key = record {
  private_key = 2;
  public_key = record { prime = 7; generator = 3; public_exponent = 2 };
}

abbrev greeting : List ℕ
greeting = b'h' ∷ b'e' ∷ b'l' ∷ b'l' ∷ b'o' ∷ []

greeting_utf8 : is_utf8 greeting ≡ true
unfolding is_utf8
greeting_utf8 = refl

-- One stored ciphertext whose message is 0.
abbrev zero_blob : List ℕ
zero_blob = 1 ∷ 0 ∷ 0 ∷ 0 ∷ 1 ∷ 0 ∷ 0 ∷ 0 ∷ 1 ∷ 1 ∷ 0 ∷ 0 ∷ 0 ∷ 0 ∷ []

zero_blob_panics : decrypt crates zero_blob small_key ≡ panic
unfolding decrypt Elgamal.parse Elgamal.read_all Elgamal.read Elgamal.read_u32
    Elgamal.decrypt_chunks PrivateKey.decrypt Sample.modpow Sample.modinv Sample.from_bytes_le
    from_le_bytes
zero_blob_panics = refl

-- Text packed and unpacked.
greeting-words : words greeting ≡ 0x6c6c6568 ∷ 0x6f ∷ []
unfolding Elgamal.pack chunks
greeting-words = refl

cut_short : parse crates (1 ∷ 2 ∷ 3 ∷ []) ≡ err invalid_ciphertext
unfolding parse
cut_short = refl

try_from-get_encoded_private_key_example :
    (key : PrivateKey) × (PrivateKey.from crates 300 ≡ ok key)
    × (PrivateKey.try_from crates (PrivateKey.get_encoded_private_key crates key) ≡ ok key)
try_from-get_encoded_private_key_example =
    try_from-get_encoded_private_key crates crates-IsLawful 300

decrypt-encrypt_example :
    (c : Ciphertext) × (PublicKey.encrypt crates (key_of 300).public_key 42 0 ≡ ok (c, 0 + 1))
    × (c.c1 < (key_of 300).public_key.prime)
    × (c.c2 < (key_of 300).public_key.prime)
    × (PrivateKey.decrypt crates (key_of 300) c ≡ ok 42)
decrypt-encrypt_example =
    decrypt-encrypt crates crates-IsLawful (key_of 300) (key_of-IsKey 300) crates-IsAvailable 42 0
      (omega arith)

parse-store_all_example :
    parse crates
      (store_all crates (to_le_bytes (as_u32 1)) (record { c1 = 300; c2 = 5 } ∷ []) ++ 9 ∷ [])
    ≡ ok (record { c1 = 300; c2 = 5 } ∷ [])
parse-store_all_example =
    parse-store_all crates crates-IsLawful (record { c1 = 300; c2 = 5 } ∷ []) (9 ∷ []) (omega arith)
      (omega arith)

decrypt-encrypt_text_example :
    (stored : List ℕ) × (encrypt crates greeting (key_of 300) 0
      ≡ ok (stored, 0 + length (words greeting)))
    × ((more : List ℕ) → decrypt crates (stored ++ more) (key_of 300) ≡ result crates greeting)
decrypt-encrypt_text_example =
    decrypt-encrypt_text crates crates-IsLawful crates-IsAvailable (key_of 300) (key_of-IsKey 300)
      greeting 0 (omega arith) (omega arith)

parse_cases_example :
    (parse crates zero_blob ≡ err invalid_ciphertext)
    ⊎ ((cs : List Ciphertext) × (parse crates zero_blob ≡ ok cs)
        × (4 + 8 * length cs ≤ length zero_blob))
parse_cases_example = parse_cases crates zero_blob

decrypt_panic_example :
    (cs : List Ciphertext) × (parse crates zero_blob ≡ ok cs) × HasZero crates small_key cs
decrypt_panic_example =
    decrypt_panic crates crates-IsLawful small_key (omega arith) zero_blob zero_blob_panics
