-- ===== src/Crypto/Elgamal/Words.antt =====
-- Little-endian words: a chunk packed into a word and unpacked, a length written and read.
use da_concept.Base.{ℕ, ◌+◌, ◌*◌, ◌/◌, ◌%◌, ◌^◌, ◌<◌, ◌≡◌, ap, ◌∙◌, bit_or, List, [], ◌∷◌, arith}
use da_concept.Base.Bits.{bit_or_shifted, bit_and_byte}
use da_concept.Crypto.Crates.{IsByte}
use da_concept.Crypto.Std.{as_u32, from_le_bytes}
use da_concept.Crypto.Elgamal.{pack, unpack}

pub from_le_bytes-to_le_bytes :
    (n : ℕ)
    → n < 2 ^ 32
    → from_le_bytes (n % 256) (n / 256 % 256) (n / 65536 % 256) (n / 16777216 % 256) ≡ n
unfolding from_le_bytes
from_le_bytes-to_le_bytes n h = omega arith

-- One byte ORed into a word above the bytes that are there.
or_byte :
    (k v b : ℕ) → v < 2 ^ k → b * 2 ^ k < 2 ^ 32 → bit_or v (as_u32 (b * 2 ^ k)) ≡ v + b * 2 ^ k
or_byte k v b h fits =
    ap (bit_or v) (let e : as_u32 (b * 2 ^ k) ≡ b * 2 ^ k = omega arith in e)
    ∙ bit_or_shifted k v b h

-- The number that four bytes stand for, the lowest first.
abbrev pub word : ℕ → ℕ → ℕ → ℕ → ℕ
word a b c d = a + b * 256 + c * 65536 + d * 16777216

-- Each round of the packing loop adds one byte of the number.
module _ (a b c d : ℕ) (ha : IsByte a) (hb : IsByte b) (hc : IsByte c) (hd : IsByte d) where
  round₀ : bit_or 0 (as_u32 (a * 2 ^ 0)) ≡ a
  round₀ = or_byte 0 0 a (omega arith) (omega arith) ∙ omega arith

  round₁ : bit_or a (as_u32 (b * 2 ^ 8)) ≡ a + b * 256
  round₁ = or_byte 8 a b (omega arith) (omega arith)

  round₂ : bit_or (a + b * 256) (as_u32 (c * 2 ^ 16)) ≡ a + b * 256 + c * 65536
  round₂ = or_byte 16 (a + b * 256) c (omega arith) (omega arith)

  round₃ : bit_or (a + b * 256 + c * 65536) (as_u32 (d * 2 ^ 24)) ≡ word a b c d
  round₃ = or_byte 24 (a + b * 256 + c * 65536) d (omega arith) (omega arith)

  pub pack_four : pack 0 0 (a ∷ b ∷ c ∷ d ∷ []) ≡ word a b c d
  unfolding pack
  pack_four = rw (round₀, round₁, round₂, round₃)

  pub pack_three : pack 0 0 (a ∷ b ∷ c ∷ []) ≡ word a b c 0
  unfolding pack
  pack_three = rw (round₀, round₁, round₂) (omega arith)

  pub pack_two : pack 0 0 (a ∷ b ∷ []) ≡ word a b 0 0
  unfolding pack
  pack_two = rw (round₀, round₁) (omega arith)

  pub pack_one : pack 0 0 (a ∷ []) ≡ word a 0 0 0
  unfolding pack
  pack_one = rw round₀ (omega arith)

  pub word-lt : word a b c d < 2 ^ 32
  word-lt = omega arith

  pub unpack-word : (rest : List ℕ) → unpack (word a b c d ∷ rest) ≡ a ∷ b ∷ c ∷ d ∷ unpack rest
  unfolding unpack
  unpack-word rest = rw (bit_and_byte, bit_and_byte, bit_and_byte, bit_and_byte) (ground arith)
