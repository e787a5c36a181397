-- ===== src/Crypto/UnitTests/Format.antt =====
-- `test_serialization_format` of crypto/src/elgamal.rs against `encrypt`.
use da_concept.Base.{
  ℕ, ◌+◌, ◌*◌, ◌-◌, ◌^◌, ◌≤◌, ◌<◌, ◌≡◌, ◌≢◌, refl, sym, ap, inl, inr, List, [], ◌∷◌, ◌++◌, All,
  length, ltb, append_assoc, length-append, arith, Bool-cases,
}
use da_concept.Base.Outcome.{ok, ok-injective}
use da_concept.Crypto.Types.{PrivateKey, Ciphertext}
use da_concept.Crypto.Crates.{Crates, IsLawful, IsAvailable, IsByte}
use da_concept.Crypto.Std.{as_u32, to_le_bytes, chunks}
use da_concept.Crypto.KeyPair.{IsKey}
use da_concept.Crypto.Elgamal.{store, store_all, read, encrypt}
use da_concept.Crypto.Elgamal.Format.{
  Fits, stored, store_all-eq, read_at, read_u32_at, length-to_le_bytes,
}
use da_concept.Crypto.Elgamal.Padding.{words, words_lem}
use da_concept.Crypto.Elgamal.RoundTrip.{encrypt_words}
use da_concept.Crypto.Elgamal.Safety.{read_u32_ok, slice_ok}
use da_concept.Crypto.UnitTests.Elgamal.{skip, skip_all, assert_format}

module _ (crates : Crates) where
  -- The test skips what `decrypt` reads.
  skip-read :
      (bytes : List ℕ) (offset : ℕ) (c : Ciphertext) (next : ℕ)
      → read crates bytes offset ≡ ok (c, next)
      → skip crates bytes offset ≡ ok next
  unfolding skip read
  skip-read bytes offset c next h = elim (Bool-cases (ltb (length bytes) (offset + 8))) [
    | inl short ↦ cc (rw short at h)
    | inr long ↦
        let (n, en) = read_u32_ok crates bytes offset (ground arith) in
        elim (Bool-cases (ltb (length bytes) (offset + 4 + n + 4))) [
          | inl short1 ↦ cc (rw (long, en, short1) at h)
          | inr long1 ↦
              let (m, em) = read_u32_ok crates bytes (offset + 4 + n) (ground arith) in
              elim (Bool-cases (ltb (length bytes) (offset + 4 + n + 4 + m))) [
                | inl short2 ↦ cc (
                    rw
                      (
                        long,
                        en,
                        long1,
                        slice_ok crates bytes (offset + 4) n (ground arith),
                        em,
                        short2,
                      )
                      at h)
                | inr long2 ↦
                    rw (long, en, long1, em, long2)
                      (ap ok (
                        ap (λ t. t.1)
                          (ok-injective (
                            rw
                              (
                                long,
                                en,
                                long1,
                                slice_ok crates bytes (offset + 4) n (ground arith),
                                em,
                                long2,
                                slice_ok crates bytes (offset + 4 + n + 4) m (ground arith),
                              )
                              at h))))
              ]
        ]
  ]

module _ (crates : Crates) (law : IsLawful crates) where
  skip_all_at :
      (pre : List ℕ) (cs : List Ciphertext) (o : ℕ)
      → All Fits cs
      → o ≡ length pre
      → skip_all crates (length cs) (pre ++ stored crates law cs) o
        ≡ ok (length (pre ++ stored crates law cs))
  unfolding skip_all
  skip_all_at pre [] o fits e = ap ok (omega (arith, length-append pre []))
  skip_all_at pre (c ∷ cs) o (fit, fits) e =
      let one : List ℕ = store crates c in
      let more : List ℕ = stored crates law cs in
      let regroup : pre ++ (one ++ more) ≡ (pre ++ one) ++ more = sym (append_assoc pre one more) in
      rw
        (
          skip-read crates (pre ++ (one ++ more)) o c (o + length one)
              (read_at crates law pre more c o fit e),
          regroup,
        )
        (skip_all_at (pre ++ one) cs (o + length one) fits (omega (arith, length-append pre one)))

  assert_format-store_all :
      (cs : List Ciphertext)
      → 0 < length cs
      → length cs < 2 ^ 32
      → All Fits cs
      → assert_format crates (store_all crates (to_le_bytes (as_u32 (length cs))) cs) ≡ ok tt
  unfolding assert_format
  assert_format-store_all cs some_more h fits =
      let count = to_le_bytes (length cs) in
      let same : as_u32 (length cs) ≡ length cs = omega arith in
      rw (same, store_all-eq crates law count cs)
        (ground (
          arith,
          length-append count (stored crates law cs),
          length-to_le_bytes (length cs),
          read_u32_at crates (count ++ stored crates law cs) [] (stored crates law cs) 0 (length cs)
              refl refl h,
          skip_all_at count cs 4 fits (sym (length-to_le_bytes (length cs))),
        ))

  some_words : (input : List ℕ) → input ≢ [] → 0 < length (words input)
  unfolding chunks
  some_words [] h = absurd (h refl)
  some_words (a ∷ []) h = omega arith
  some_words (a ∷ b ∷ []) h = omega arith
  some_words (a ∷ b ∷ c ∷ []) h = omega arith
  some_words (a ∷ b ∷ c ∷ d ∷ rest) h = omega arith

  -- With lawful crates, random bytes at hand and a valid key, any bytes that are not empty and short
  -- enough for the count of their chunks to fit 32 bits are encrypted, and what is stored passes
  -- the test of its format: the count is positive, no length in it leads past the end, and no bytes
  -- are left over.
  pub assert_format-encrypt :
      IsAvailable crates
      → (key : PrivateKey) (valid : IsKey key) (input : List ℕ) (rng : ℕ) → All IsByte input
      → input ≢ []
      → length input ≤ 4 * (2 ^ 32 - 1)
      → (encrypted : List ℕ) × (rng' : ℕ) × (encrypt crates input key rng ≡ ok (encrypted, rng'))
        × (assert_format crates encrypted ≡ ok tt)
  unfolding encrypt
  assert_format-encrypt available key valid input rng bytes filled short =
      let (zeros, small, few) = words_lem input bytes in
      let e = encrypt_words crates law available key valid (words input) rng small in
      let count : length e.ciphertexts ≡ length (words input) = e.same_length in
      (
        store_all crates (to_le_bytes (as_u32 (length e.ciphertexts))) e.ciphertexts,
        rng + length (words input),
        rw e.encrypted,
        assert_format-store_all e.ciphertexts (omega (arith, count, some_words input filled))
            (omega (arith, few, count)) e.fits,
      )
