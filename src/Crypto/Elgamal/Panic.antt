-- ===== src/Crypto/Elgamal/Panic.antt =====
-- When `decrypt` panics.
use da_concept.Base.{
  ℕ, zero, suc, ◌*◌, ◌%◌, ◌^◌, ◌<◌, ◌≡◌, ◌⊎◌, inl, inr, refl, List, [], ◌∷◌, Option-cases, arith,
}
use da_concept.Base.Outcome.{ok, err, panic, ◌>>=◌, bind_panic}
use da_concept.Crypto.Types.{PrivateKey, Ciphertext, invalid_ciphertext}
use da_concept.Crypto.Crates.{Crates, Result, IsLawful}
use da_concept.Crypto.PrivateKey
use da_concept.Crypto.Std.{from_utf8}
use da_concept.Crypto.Elgamal.{parse, decrypt_chunks, decrypt, decoded, trim, unpack}
use da_concept.Crypto.Elgamal.Safety.{parse_cases}

module _ (crates : Crates) (key : PrivateKey) where
  -- Some ciphertext of the list stands for the number 0.
  pub data HasZero : List Ciphertext → Type 0 where
    here :
        {c : Ciphertext} {cs : List Ciphertext}
        → PrivateKey.decrypt crates key c ≡ ok 0
        → HasZero (c ∷ cs)
    there : {c : Ciphertext} {cs : List Ciphertext} → HasZero cs → HasZero (c ∷ cs)

module _ (crates : Crates) (law : IsLawful crates) (key : PrivateKey)
    (positive : 0 < key.public_key.prime) where
  -- One ciphertext is decrypted to a number or refused, never with a panic.
  decrypt_cases :
      (c : Ciphertext)
      → (PrivateKey.decrypt crates key c ≡ err invalid_ciphertext)
        ⊎ ((m : ℕ) × (PrivateKey.decrypt crates key c ≡ ok m))
  unfolding PrivateKey.decrypt
  decrypt_cases c =
      let p = key.public_key.prime in
      let s : ℕ = c.c1 ^ key.private_key % p in
      elim (Option-cases (crates.modinv s p)) [
        | inl no_inverse ↦ inl (rw (law.modpow-eq c.c1 key.private_key p positive, no_inverse))
        | inr (v, e) ↦
            inr (c.c2 * v % p, rw (law.modpow-eq c.c1 key.private_key p positive, e) (ground arith))
      ]

  decrypt_chunks_panic :
      (cs : List Ciphertext) → decrypt_chunks crates key cs ≡ panic → HasZero crates key cs
  unfolding decrypt_chunks
  decrypt_chunks_panic [] h = cc
  decrypt_chunks_panic (c ∷ cs) h = elim (decrypt_cases c) [
    | inl e ↦ cc (rw e at h)
    | inr (zero, e) ↦ here e
    | inr (suc m, e) ↦
        let (more, digits) = law.to_u32_digits-pos (suc m) (omega arith) in
        there (
          decrypt_chunks_panic cs
            (bind_panic (decrypt_chunks crates key cs) _ (rw (e, digits) at h)))
  ]

  -- With lawful crates and a positive prime, `decrypt` panics only on bytes that parse, and only
  -- if some ciphertext in them stands for 0.
  pub decrypt_panic :
      (bytes : List ℕ)
      → decrypt crates bytes key ≡ panic
      → (cs : List Ciphertext) × (parse crates bytes ≡ ok cs) × HasZero crates key cs
  unfolding decrypt
  decrypt_panic bytes h = elim (parse_cases crates bytes) [
    | inl e ↦ cc (rw e at h)
    | inr (cs, e, room) ↦
        (cs, e, decrypt_chunks_panic cs (rest_panic (decrypt_chunks crates key cs) (rw e at h)))
  ]
    where
      rest_panic :
          (m : Result crates (List ℕ))
          → (do chunks ← m; decoded crates (from_utf8 (trim (unpack chunks)))) ≡ panic
          → m ≡ panic
      rest_panic (ok chunks) f = ground arith
      rest_panic (err x) f = cc
      rest_panic panic f = refl
