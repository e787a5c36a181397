-- ===== src/Crypto/Elgamal/Safety.antt =====
-- `decrypt` on any bytes, well formed or not.
use da_concept.Base.{
  ℕ, zero, suc, ◌+◌, ◌-◌, ◌*◌, ◌≤◌, ◌≡◌, ◌⊎◌, inl, inr, refl, ap, List, [], ◌∷◌, length, ltb, take,
  drop, arith, get_elem?_lt, Bool-cases,
}
use da_concept.Base.Outcome.{ok, err}
use da_concept.Crypto.Types.{Ciphertext, CryptoError, invalid_ciphertext}
use da_concept.Crypto.Crates.{Crates}
use da_concept.Crypto.Std.{slice, from_le_bytes}
use da_concept.Crypto.Elgamal.{read_u32, read, read_all, parse}

module _ (crates : Crates) where
  -- A read of four bytes within bounds returns.
  pub read_u32_ok :
      (bytes : List ℕ) (at : ℕ)
      → at + 4 ≤ length bytes
      → (n : ℕ) × (read_u32 crates bytes at ≡ ok n)
  unfolding read_u32
  read_u32_ok bytes at h =
      let (a, ea) = get_elem?_lt bytes at (omega arith) in
      let (b, eb) = get_elem?_lt bytes (at + 1) (omega arith) in
      let (c, ec) = get_elem?_lt bytes (at + 2) (omega arith) in
      let (d, ed) = get_elem?_lt bytes (at + 3) (omega arith) in
      (from_le_bytes a b c d, rw (ea, eb, ec, ed))

  pub slice_ok :
      (bytes : List ℕ) (from k : ℕ)
      → from + k ≤ length bytes
      → slice {E = CryptoError crates.DecodeError} bytes from (from + k)
        ≡ ok (take (from + k - from) (drop from bytes))
  slice_ok bytes from k h = ground arith

  -- A round of the reading loop refuses, or it returns and moves on by at least 8 bytes, within
  -- bounds.
  read_cases :
      (bytes : List ℕ) (offset : ℕ)
      → (read crates bytes offset ≡ err invalid_ciphertext)
        ⊎ ((c : Ciphertext) × (next : ℕ) × (read crates bytes offset ≡ ok (c, next))
            × (offset + 8 ≤ next)
            × (next ≤ length bytes))
  unfolding read
  read_cases bytes offset = elim (Bool-cases (ltb (length bytes) (offset + 8))) [
    | inl short ↦ inl (rw short)
    | inr long ↦
        let (n, en) = read_u32_ok bytes offset (ground arith) in
        elim (Bool-cases (ltb (length bytes) (offset + 4 + n + 4))) [
          | inl short1 ↦ inl (rw (long, en, short1))
          | inr long1 ↦
              let (m, em) = read_u32_ok bytes (offset + 4 + n) (ground arith) in
              elim (Bool-cases (ltb (length bytes) (offset + 4 + n + 4 + m))) [
                | inl short2 ↦
                    inl (
                      rw
                        (long, en, long1, slice_ok bytes (offset + 4) n (ground arith), em, short2))
                | inr long2 ↦ inr (
                  record {
                    c1 =
                        crates.from_bytes_le
                          (take (offset + 4 + n - (offset + 4)) (drop (offset + 4) bytes));
                    c2 = crates.from_bytes_le (
                        take (offset + 4 + n + 4 + m - (offset + 4 + n + 4))
                          (drop (offset + 4 + n + 4) bytes));
                  },
                  offset + 4 + n + 4 + m,
                  rw (
                    long,
                    en,
                    long1,
                    slice_ok bytes (offset + 4) n (ground arith),
                    em,
                    long2,
                    slice_ok bytes (offset + 4 + n + 4) m (ground arith),
                  ),
                  omega arith,
                  ground arith,
                )
              ]
        ]
  ]

  -- The reading loop refuses, or it returns as many ciphertexts as it was asked for, each of which
  -- took 8 bytes.
  read_all_cases :
      (count : ℕ) (bytes : List ℕ) (offset : ℕ)
      → offset ≤ length bytes
      → (read_all crates count bytes offset ≡ err invalid_ciphertext)
        ⊎ ((cs : List Ciphertext) × (read_all crates count bytes offset ≡ ok cs)
            × (offset + 8 * length cs ≤ length bytes)
            × (length cs ≡ count))
  unfolding read_all
  read_all_cases zero bytes offset h = inr ([], refl, omega arith, refl)
  read_all_cases (suc count) bytes offset h = elim (read_cases bytes offset) [
    | inl e ↦ inl (rw e)
    | inr (c, next, e, far, within) ↦ elim (read_all_cases count bytes next within) [
      | inl f ↦ inl (rw (e, f))
      | inr (cs, f, room, same) ↦ inr (c ∷ cs, rw (e, f), omega arith, ap suc same)
    ]
  ]

  -- On any bytes the parser refuses them as an invalid ciphertext or returns a list; it never
  -- panics. A list that it returns took at least 8 bytes for each ciphertext, behind the count's
  -- 4.
  pub parse_cases :
      (bytes : List ℕ)
      → (parse crates bytes ≡ err invalid_ciphertext)
        ⊎ ((cs : List Ciphertext) × (parse crates bytes ≡ ok cs)
            × (4 + 8 * length cs ≤ length bytes))
  unfolding parse
  parse_cases bytes = elim (Bool-cases (ltb (length bytes) 4)) [
    | inl short ↦ inl (rw short)
    | inr long ↦
        let (n, en) = read_u32_ok bytes 0 (ground arith) in
        elim (read_all_cases n bytes 4 (ground arith)) [
          | inl e ↦ inl (rw (long, en, e))
          | inr (cs, e, room, same) ↦ inr (cs, rw (long, en, e), room)
        ]
  ]
