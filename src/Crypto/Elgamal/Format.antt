-- ===== src/Crypto/Elgamal/Format.antt =====
-- The stored format of ciphertexts: what `store_all` writes, `parse` reads.
use da_concept.Base.{
  ℕ, ◌+◌, ◌^◌, ◌-◌, ◌≤◌, ◌<◌, ◌≡◌, refl, sym, ap, ◌∙◌, List, [], ◌∷◌, ◌++◌, length, All, arith,
  append_assoc, append-nil, length-append, get_elem?, get_elem?-append, take-append, drop-append,
}
use da_concept.Base.Outcome.{ok}
use da_concept.Crypto.Types.{Ciphertext, CryptoError}
use da_concept.Crypto.Crates.{Crates, IsLawful}
use da_concept.Crypto.Std.{as_u32, to_le_bytes, slice}
use da_concept.Crypto.Elgamal.{store, store_all, read_u32, read, read_all, parse}
use da_concept.Crypto.Elgamal.Words.{from_le_bytes-to_le_bytes}

pub length-to_le_bytes : (n : ℕ) → length (to_le_bytes n) ≡ 4
unfolding to_le_bytes
length-to_le_bytes n = refl

-- Reading at an offset that is the length of what stands before.
get_at :
    (pre rest : List ℕ) (o i j : ℕ)
    → o ≡ length pre
    → j ≡ o + i
    → get_elem? (pre ++ rest) j ≡ get_elem? rest i
get_at pre rest o i j e f = rw f (get_elem?-append pre rest o i e)

slice_at :
    {E : Type 0} (whole pre mid rest : List ℕ) (o k : ℕ)
    → whole ≡ pre ++ (mid ++ rest)
    → o ≡ length pre
    → k ≡ length mid
    → slice {E = E} whole o (o + k) ≡ ok mid
slice_at whole pre mid rest o k w e f =
    rw
      (
        w,
        drop-append pre (mid ++ rest) o e,
        (let minus : o + k - o ≡ k = omega arith in minus),
        take-append mid rest k f,
      )
      (ground (arith, length-append pre (mid ++ rest), length-append mid rest))

module _ (crates : Crates) where
  pub read_u32_at :
      (whole pre rest : List ℕ) (o n : ℕ)
      → whole ≡ pre ++ (to_le_bytes n ++ rest)
      → o ≡ length pre
      → n < 2 ^ 32
      → read_u32 crates whole o ≡ ok n
  unfolding read_u32 to_le_bytes
  read_u32_at whole pre rest o n w e h =
      let tail = to_le_bytes n ++ rest in
      rw
        (
          w,
          get_at pre tail o 0 o e (omega arith),
          get_at pre tail o 1 (o + 1) e refl,
          get_at pre tail o 2 (o + 2) e refl,
          get_at pre tail o 3 (o + 3) e refl,
        )
        (ap ok (from_le_bytes-to_le_bytes n h))

  -- One ciphertext whose two numbers have the bytes `b1` and `b2`.
  module _ (pre b1 b2 rest : List ℕ) (small1 : length b1 < 2 ^ 32)
      (small2 : length b2 < 2 ^ 32) where
    abbrev whole : List ℕ
    whole = pre ++ (to_le_bytes (length b1) ++ (b1 ++ (to_le_bytes (length b2) ++ (b2 ++ rest))))

    length-whole : length whole ≡ length pre + 8 + length b1 + length b2 + length rest
    length-whole = omega (
      arith,
      length-append pre
          (to_le_bytes (length b1) ++ (b1 ++ (to_le_bytes (length b2) ++ (b2 ++ rest)))),
      length-append (to_le_bytes (length b1)) (b1 ++ (to_le_bytes (length b2) ++ (b2 ++ rest))),
      length-append b1 (to_le_bytes (length b2) ++ (b2 ++ rest)),
      length-append (to_le_bytes (length b2)) (b2 ++ rest),
      length-append b2 rest,
      length-to_le_bytes (length b1),
      length-to_le_bytes (length b2),
    )

    pub read_stored :
        (o : ℕ)
        → o ≡ length pre
        → read crates whole o
          ≡ ok (
            record { c1 = crates.from_bytes_le b1; c2 = crates.from_bytes_le b2 },
            o + 4 + length b1 + 4 + length b2,
          )
    unfolding read
    read_stored o e =
        let le1 = to_le_bytes (length b1) in
        let le2 = to_le_bytes (length b2) in
        let pre1 = pre ++ le1 in
        let pre2 = pre1 ++ b1 in
        let pre3 = pre2 ++ le2 in
        let n1 : o + 4 ≡ length pre1 =
          omega (arith, length-append pre le1, length-to_le_bytes (length b1)) in
        let n2 : o + 4 + length b1 ≡ length pre2 = omega (arith, length-append pre1 b1, n1) in
        let n3 : o + 4 + length b1 + 4 ≡ length pre3 =
          omega (arith, length-append pre2 le2, n2, length-to_le_bytes (length b2)) in
        ground (
          arith,
          length-whole,
          read_u32_at whole pre _ o (length b1) refl e small1,
          slice_at {E = CryptoError crates.DecodeError} whole pre1 b1 (le2 ++ (b2 ++ rest)) (o + 4)
              (length b1) (simp append_assoc) n1 refl,
          read_u32_at whole pre2 (b2 ++ rest) (o + 4 + length b1) (length b2) (simp append_assoc) n2
              small2,
          slice_at {E = CryptoError crates.DecodeError} whole pre3 b2 rest (o + 4 + length b1 + 4)
              (length b2) (simp append_assoc) n3 refl,
        )

-- Both numbers fit in 32 bytes.
abbrev pub Fits : Ciphertext → Type 0
Fits c = (c.c1 < 256 ^ 32) × (c.c2 < 256 ^ 32)

module _ (crates : Crates) (law : IsLawful crates) where
  pub read_at :
      (pre rest : List ℕ) (c : Ciphertext) (o : ℕ)
      → Fits c
      → o ≡ length pre
      → read crates (pre ++ (store crates c ++ rest)) o ≡ ok (c, o + length (store crates c))
  unfolding store
  read_at pre rest c o (fit1, fit2) e =
      let b1 = crates.to_bytes_le c.c1 in
      let b2 = crates.to_bytes_le c.c2 in
      let le1 = to_le_bytes (length b1) in
      let le2 = to_le_bytes (length b2) in
      let short1 : length b1 ≤ 32 = law.length-to_bytes_le c.c1 32 (omega arith) fit1 in
      let short2 : length b2 ≤ 32 = law.length-to_bytes_le c.c2 32 (omega arith) fit2 in
      let same1 : as_u32 (length b1) ≡ length b1 = omega arith in
      let same2 : as_u32 (length b2) ≡ length b2 = omega arith in
      let size : o + 4 + length b1 + 4 + length b2 ≡ o + length (le1 ++ (b1 ++ (le2 ++ b2))) =
        omega (
          arith,
          length-append le1 (b1 ++ (le2 ++ b2)),
          length-append b1 (le2 ++ b2),
          length-append le2 b2,
          length-to_le_bytes (length b1),
          length-to_le_bytes (length b2),
        ) in
      rw (same1, same2, ← size)
        (simp append_assoc (
          read_stored crates pre b1 b2 rest (omega arith) (omega arith) o e
          ∙ rw (law.from_bytes_le-to_bytes_le c.c1, law.from_bytes_le-to_bytes_le c.c2)))

  abbrev pub stored : List Ciphertext → List ℕ
  stored [] = []
  stored (c ∷ cs) = store crates c ++ stored cs

  pub store_all-eq :
      (result : List ℕ) (cs : List Ciphertext) → store_all crates result cs ≡ result ++ stored cs
  unfolding store_all
  store_all-eq result [] = sym (append-nil result)
  store_all-eq result (c ∷ cs) =
      store_all-eq (result ++ store crates c) cs ∙ append_assoc result (store crates c) (stored cs)

  read_all_at :
      (pre rest : List ℕ) (cs : List Ciphertext) (o : ℕ)
      → All Fits cs
      → o ≡ length pre
      → read_all crates (length cs) (pre ++ (stored cs ++ rest)) o ≡ ok cs
  unfolding read_all
  read_all_at pre rest [] o fits e = refl
  read_all_at pre rest (c ∷ cs) o (fit, fits) e =
      let one : List ℕ = store crates c in
      rw (
        append_assoc one (stored cs) rest,
        read_at pre (stored cs ++ rest) c o fit e,
        (let w : pre ++ (one ++ (stored cs ++ rest)) ≡ (pre ++ one) ++ (stored cs ++ rest) =
              simp append_assoc in
            w),
        read_all_at (pre ++ one) rest cs (o + length one) fits
            (omega (arith, length-append pre one)),
      )

  -- With lawful crates, fewer than 2^32 ciphertexts, both numbers of each below 256^32 (32 bytes), are
  -- read back from their stored form, whatever bytes follow it.
  pub parse-store_all :
      (cs : List Ciphertext) (rest : List ℕ)
      → length cs < 2 ^ 32
      → All Fits cs
      → parse crates (store_all crates (to_le_bytes (as_u32 (length cs))) cs ++ rest) ≡ ok cs
  unfolding parse
  parse-store_all cs rest h fits =
      let count = to_le_bytes (length cs) in
      let same : as_u32 (length cs) ≡ length cs = omega arith in
      rw (same, store_all-eq, append_assoc)
        (ground (
          arith,
          length-append count (stored cs ++ rest),
          length-to_le_bytes (length cs),
          read_u32_at crates (count ++ (stored cs ++ rest)) [] (stored cs ++ rest) 0 (length cs)
              refl refl h,
          read_all_at count rest cs 4 fits (sym (length-to_le_bytes (length cs))),
        ))
