-- ===== src/Crypto/Elgamal/RoundTrip.antt =====
-- What `decrypt` returns on what `encrypt` returned.
use da_concept.Base.{
  ℕ, zero, suc, ◌+◌, ◌-◌, ◌*◌, ◌%◌, ◌^◌, ◌≤◌, ◌<◌, ◌≡◌, ◌≢◌, refl, ap, true, false, List, [], ◌∷◌,
  ◌++◌, All, length, ◌==◌, if◌then◌else◌, append-nil, arith,
}
use da_concept.Base.Outcome.{ok, panic}
use da_concept.Crypto.Types.{PrivateKey, Ciphertext, CryptoError}
use da_concept.Crypto.Crates.{Crates, Result, IsLawful, IsAvailable, IsByte}
use da_concept.Crypto.Std.{chunks, to_le_bytes, as_u32, from_utf8, is_utf8, index}
use da_concept.Crypto.KeyPair.{IsKey, decrypt-encrypt}
use da_concept.Crypto.Elgamal.{
  encrypt_chunks, decrypt_chunks, encrypt, decrypt, store_all, trim, decoded,
}
use da_concept.Crypto.Elgamal.Format.{Fits, parse-store_all}
use da_concept.Crypto.Elgamal.Padding.{
  words, any_zero, has_null_chunk, words_lem, trim-unpack-words, trim-eq,
}

nul_free_chunks : (input : List ℕ) → All (λ b. 0 < b) input → has_null_chunk input ≡ false
unfolding chunks
nul_free_chunks [] h = refl
nul_free_chunks (a ∷ []) h = ground arith
nul_free_chunks (a ∷ b ∷ []) h = ground arith
nul_free_chunks (a ∷ b ∷ c ∷ []) h = ground arith
nul_free_chunks (a ∷ b ∷ c ∷ d ∷ rest) (ha, (_, (_, (_, h)))) =
    ground (arith, nul_free_chunks rest h)

nul_free_end :
    (input : List ℕ) → All (λ b. 0 < b) input → (front : List ℕ) → input ≢ front ++ 0 ∷ []
nul_free_end [] h [] e = cc
nul_free_end [] h (f ∷ front) e = cc
nul_free_end (b ∷ rest) (hb, h) [] e = ground arith
nul_free_end (b ∷ rest) (hb, h) (f ∷ front) e = nul_free_end rest h front (cc)

-- What becomes of a text: a chunk of NUL bytes panics, NUL bytes at the end are lost, and the rest
-- is returned if it is UTF-8.
unfoldable pub result : (crates : Crates) → List ℕ → Result crates (List ℕ)
result crates input =
    if has_null_chunk input then panic else decoded crates (from_utf8 (trim input))

module _ (crates : Crates) (law : IsLawful crates) (available : IsAvailable crates)
    (key : PrivateKey) (valid : IsKey key) where
  -- The first digit of a decrypted word: there is none of zero.
  first_digit :
      (w : ℕ)
      → w < 2 ^ 32
      → index {E = CryptoError crates.DecodeError} (crates.to_u32_digits w) 0
        ≡ (if w == 0 then panic else ok w)
  first_digit zero h = rw law.to_u32_digits-zero
  first_digit (suc w) h =
      let (more, e) = law.to_u32_digits-pos (suc w) (omega arith) in
      rw (e, (let same : suc w % 2 ^ 32 ≡ suc w = omega arith in same)) (ground arith)

  pub record Encrypted (ws : List ℕ) (rng : ℕ) : Type 0 where
    pub ciphertexts : List Ciphertext
    pub encrypted : encrypt_chunks crates key ws rng ≡ ok (ciphertexts, rng + length ws)
    pub fits : All Fits ciphertexts
    pub same_length : length ciphertexts ≡ length ws
    pub decrypted : decrypt_chunks crates key ciphertexts ≡ (if any_zero ws then panic else ok ws)

  pub encrypt_words : (ws : List ℕ) (rng : ℕ) → All (λ w. w < 2 ^ 32) ws → Encrypted ws rng
  unfolding encrypt_chunks decrypt_chunks
  encrypt_words [] rng h = record {
    ciphertexts = [];
    encrypted = ap (λ t. ok ([], t)) (let e : rng ≡ rng + 0 = omega arith in e);
    fits = tt;
    same_length = refl;
    decrypted = refl;
  }
  encrypt_words (w ∷ ws) rng (hw, h) =
      let (c, enc, lt1, lt2, dec) =
        decrypt-encrypt crates law key valid available w rng (omega (arith, valid.wide)) in
      let more = encrypt_words ws (rng + 1) h in
      record {
        ciphertexts = c ∷ more.ciphertexts;
        encrypted =
            rw (enc, more.encrypted)
              (ap (λ t. ok (c ∷ more.ciphertexts, t))
                (let e : rng + 1 + length ws ≡ rng + suc (length ws) = omega arith in e));
        fits = ((omega (arith, lt1, valid.fits), omega (arith, lt2, valid.fits)), more.fits);
        same_length = omega (arith, more.same_length);
        decrypted = rw (dec, first_digit w hw, more.decrypted) (ground arith);
      }

  -- With lawful crates, random bytes at hand and a valid key, bytes that are short enough for the
  -- count of their chunks to fit 32 bits are encrypted with one random request for each chunk,
  -- and what is stored, whatever bytes follow it, is decrypted to `result` of the bytes: a panic
  -- if a chunk of them (four bytes, or fewer at the end) is all NUL, else the text without its NULs at the end, or a decoding error
  -- if that is not UTF-8.
  pub decrypt-encrypt_text :
      (input : List ℕ) (rng : ℕ)
      → All IsByte input
      → length input ≤ 4 * (2 ^ 32 - 1)
      → (stored : List ℕ) × (encrypt crates input key rng ≡ ok (stored, rng + length (words input)))
        × ((more : List ℕ) → decrypt crates (stored ++ more) key ≡ result crates input)
  unfolding encrypt decrypt result
  decrypt-encrypt_text input rng bytes short =
      let (zeros, small, few) = words_lem input bytes in
      let e = encrypt_words (words input) rng small in
      (
        store_all crates (to_le_bytes (as_u32 (length e.ciphertexts))) e.ciphertexts,
        rw e.encrypted,
        λ more.
            rw
              (
                parse-store_all crates law e.ciphertexts more (omega (arith, few, e.same_length))
                    e.fits,
                e.decrypted,
                zeros,
              )
              (ground (arith, trim-unpack-words input bytes)),
      )

  -- With lawful crates, random bytes at hand and a valid key, a UTF-8 text without NUL bytes that
  -- is short enough for the count of its chunks to fit 32 bits is encrypted, and decrypted to
  -- itself.
  pub decrypt-encrypt_nul_free :
      (input : List ℕ) (rng : ℕ)
      → All IsByte input
      → length input ≤ 4 * (2 ^ 32 - 1)
      → is_utf8 input ≡ true
      → All (λ b. 0 < b) input
      → (stored : List ℕ) × (rng' : ℕ) × (encrypt crates input key rng ≡ ok (stored, rng'))
        × (decrypt crates stored key ≡ ok input)
  unfolding result from_utf8
  decrypt-encrypt_nul_free input rng bytes short utf8 nul_free =
      let (stored, e, d) = decrypt-encrypt_text input rng bytes short in
      (
        stored,
        rng + length (words input),
        e,
        rw
            (
              append-nil,
              nul_free_chunks input nul_free,
              trim-eq input (nul_free_end input nul_free),
              utf8,
            )
            at (d []),
      )
