-- ===== src/Crypto/Elgamal/Padding.antt =====
-- The chunks of a text and back: what `unpack` returns is the text with the padding of its last
-- chunk, and `trim` takes the padding and the text's own last NUL bytes away.
use mathlib.Core.List.{reverse, reverse-append, reverse-cons, reverse-reverse}
use da_concept.Base.{
  ℕ, ◌+◌, ◌*◌, ◌^◌, ◌<◌, ◌≡◌, ◌≢◌, refl, sym, ap, ◌∙◌, true, false, Bool, ◌&&◌, ◌||◌, List, [], ◌∷◌,
  ◌++◌, map, All, All-append, length, ◌==◌, arith,
}
use da_concept.Crypto.Crates.{IsByte}
use da_concept.Crypto.Std.{chunks}
use da_concept.Crypto.Elgamal.{pack, unpack, pop_zeros, trim}
use da_concept.Crypto.Elgamal.Words.{
  pack_one, pack_two, pack_three, pack_four, word-lt, unpack-word,
}

abbrev pub words : List ℕ → List ℕ
words bytes = map (pack 0 0) (chunks bytes)

-- The NUL bytes that fill the last chunk.
abbrev padding : List ℕ → List ℕ
padding [] = []
padding (a ∷ []) = 0 ∷ 0 ∷ 0 ∷ []
padding (a ∷ b ∷ []) = 0 ∷ 0 ∷ []
padding (a ∷ b ∷ c ∷ []) = 0 ∷ []
padding (a ∷ b ∷ c ∷ d ∷ rest) = padding rest

IsByte-zero : IsByte 0
IsByte-zero = omega arith

unpack-words : (bytes : List ℕ) → All IsByte bytes → unpack (words bytes) ≡ bytes ++ padding bytes
unfolding chunks
unpack-words [] h = unfold unpack in refl
unpack-words (a ∷ []) (ha, _) =
    let z = IsByte-zero in
    rw (pack_one a 0 0 0 ha z z z, unpack-word a 0 0 0 ha z z z []) (unfold unpack in refl)
unpack-words (a ∷ b ∷ []) (ha, (hb, _)) =
    let z = IsByte-zero in
    rw (pack_two a b 0 0 ha hb z z, unpack-word a b 0 0 ha hb z z []) (unfold unpack in refl)
unpack-words (a ∷ b ∷ c ∷ []) (ha, (hb, (hc, _))) =
    let z = IsByte-zero in
    rw (pack_three a b c 0 ha hb hc z, unpack-word a b c 0 ha hb hc z []) (unfold unpack in refl)
unpack-words (a ∷ b ∷ c ∷ d ∷ rest) (ha, (hb, (hc, (hd, h)))) = rw (
  pack_four a b c d ha hb hc hd,
  unpack-word a b c d ha hb hc hd (words rest),
  unpack-words rest h,
)

abbrev pub is_null : List ℕ → Bool
is_null [] = true
is_null (b ∷ rest) = b == 0 && is_null rest

abbrev any_null : List (List ℕ) → Bool
any_null [] = false
any_null (chunk ∷ rest) = is_null chunk || any_null rest

-- Whether some chunk of four bytes (or the shorter last one) has only NUL bytes.
abbrev pub has_null_chunk : List ℕ → Bool
has_null_chunk bytes = any_null (chunks bytes)

abbrev pub any_zero : List ℕ → Bool
any_zero [] = false
any_zero (w ∷ ws) = w == 0 || any_zero ws

-- A word is zero when its chunk has only NUL bytes, and no word passes 32 bits.
pub words_lem :
    (bytes : List ℕ)
    → All IsByte bytes
    → (any_zero (words bytes) ≡ has_null_chunk bytes)
      × All (λ w. w < 2 ^ 32) (words bytes)
      × (4 * length (words bytes) < length bytes + 4)
unfolding chunks
words_lem [] h = (refl, tt, omega arith)
words_lem (a ∷ []) (ha, _) =
    let z = IsByte-zero in rw (pack_one a 0 0 0 ha z z z) (ground arith, ground arith, omega arith)
words_lem (a ∷ b ∷ []) (ha, (hb, _)) =
    let z = IsByte-zero in rw (pack_two a b 0 0 ha hb z z) (ground arith, ground arith, omega arith)
words_lem (a ∷ b ∷ c ∷ []) (ha, (hb, (hc, _))) =
    let z = IsByte-zero in
    rw (pack_three a b c 0 ha hb hc z) (ground arith, ground arith, omega arith)
words_lem (a ∷ b ∷ c ∷ d ∷ rest) (ha, (hb, (hc, (hd, h)))) =
    let (same, small, short) = words_lem rest h in
    rw (pack_four a b c d ha hb hc hd, same)
      (ground arith, (word-lt a b c d ha hb hc hd, small), omega (arith, short))

pop_zeros-append : (zs ys : List ℕ) → All (λ b. b ≡ 0) zs → pop_zeros (zs ++ ys) ≡ pop_zeros ys
unfolding pop_zeros
pop_zeros-append [] ys h = refl
pop_zeros-append (z ∷ zs) ys (hz, h) = ground (arith, pop_zeros-append zs ys h)

reverse-All : (P : ℕ → Type 0) (zs : List ℕ) → All P zs → All P (reverse zs)
reverse-All P [] h = tt
reverse-All P (z ∷ zs) (hz, h) =
    rw (reverse-cons z zs) (All-append P (reverse zs) (z ∷ []) (reverse-All P zs h) (hz, tt))

padding-zero : (bytes : List ℕ) → All (λ b. b ≡ 0) (padding bytes)
padding-zero [] = tt
padding-zero (a ∷ []) = omega arith
padding-zero (a ∷ b ∷ []) = omega arith
padding-zero (a ∷ b ∷ c ∷ []) = omega arith
padding-zero (a ∷ b ∷ c ∷ d ∷ rest) = padding-zero rest

-- `trim` does not see NUL bytes at the end.
trim-append : (xs zs : List ℕ) → All (λ b. b ≡ 0) zs → trim (xs ++ zs) ≡ trim xs
unfolding trim
trim-append xs zs h =
    rw (reverse-append xs zs, pop_zeros-append (reverse zs) (reverse xs) (reverse-All _ zs h))

pub trim-unpack-words :
    (bytes : List ℕ) → All IsByte bytes → trim (unpack (words bytes)) ≡ trim bytes
trim-unpack-words bytes h =
    rw (unpack-words bytes h) (trim-append bytes (padding bytes) (padding-zero bytes))

pop_zeros-ne : (ys : List ℕ) → ((r : List ℕ) → ys ≢ 0 ∷ r) → pop_zeros ys ≡ ys
unfolding pop_zeros
pop_zeros-ne [] h = refl
pop_zeros-ne (y ∷ ys) h = ground (arith, h ys)

-- A text that does not end in NUL is not trimmed.
pub trim-eq : (bytes : List ℕ) → ((front : List ℕ) → bytes ≢ front ++ 0 ∷ []) → trim bytes ≡ bytes
unfolding trim
trim-eq bytes h =
    rw
      (pop_zeros-ne (reverse bytes)
        (λ r e. h (reverse r) (sym (reverse-reverse bytes) ∙ ap reverse e ∙ reverse-cons 0 r)))
      (reverse-reverse bytes)
