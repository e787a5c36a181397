-- ===== src/Crypto/Std.antt =====
-- What elgamal.rs uses of the standard library: little-endian words, slices with their bounds
-- check, `chunks(4)`, and the UTF-8 test of `String::from_utf8`.
use da_concept.Base.{
  ℕ, zero, suc, ◌+◌, ◌-◌, ◌*◌, ◌/◌, ◌%◌, ◌^◌, Bool, false, ◌&&◌, Option, none, some, List, [], ◌∷◌,
  length, get_elem?, take, drop, leb, ltb, ◌==◌, if◌then◌else◌,
}
use da_concept.Base.Outcome.{Outcome, ok, panic, unwrap}

-- `x as u32`
abbrev pub as_u32 : ℕ → ℕ
as_u32 n = n % 2 ^ 32

-- `u32::to_le_bytes`
unfoldable pub to_le_bytes : ℕ → List ℕ
to_le_bytes n = (n % 256) ∷ (n / 256 % 256) ∷ (n / 65536 % 256) ∷ (n / 16777216 % 256) ∷ []

-- `u32::from_le_bytes`
unfoldable pub from_le_bytes : ℕ → ℕ → ℕ → ℕ → ℕ
from_le_bytes a b c d = a + b * 256 + c * 65536 + d * 16777216

module _ {E : Type 0} where
  -- `v[i]`
  abbrev pub index : List ℕ → ℕ → Outcome E ℕ
  index v i = unwrap (get_elem? v i)

  -- `&v[from..to]`
  abbrev pub slice : List ℕ → ℕ → ℕ → Outcome E (List ℕ)
  slice v from to =
      if leb from to && leb to (length v) then ok (take (to - from) (drop from v)) else panic

-- `bytes.chunks(4)`
unfoldable pub chunks : List ℕ → List (List ℕ)
chunks [] = []
chunks (a ∷ []) = (a ∷ []) ∷ []
chunks (a ∷ b ∷ []) = (a ∷ b ∷ []) ∷ []
chunks (a ∷ b ∷ c ∷ []) = (a ∷ b ∷ c ∷ []) ∷ []
chunks (a ∷ b ∷ c ∷ d ∷ rest) = (a ∷ b ∷ c ∷ d ∷ []) ∷ chunks rest

-- What a first byte of a UTF-8 sequence asks for: how many more bytes, and the range of the next.
abbrev lead : ℕ → Option (ℕ × ℕ × ℕ)
lead b =
    if ltb b 0x80
    then some (0, 0, 0)
    else if leb 0xC2 b && leb b 0xDF
    then some (1, 0x80, 0xBF)
    else if b == 0xE0
    then some (2, 0xA0, 0xBF)
    else if b == 0xED
    then some (2, 0x80, 0x9F)
    else if leb 0xE1 b && leb b 0xEF
    then some (2, 0x80, 0xBF)
    else if b == 0xF0
    then some (3, 0x90, 0xBF)
    else if leb 0xF1 b && leb b 0xF3
    then some (3, 0x80, 0xBF)
    else if b == 0xF4
    then some (3, 0x80, 0x8F)
    else none

-- `need` more bytes belong to the current character, the next of them between `lo` and `hi`.
utf8_scan : List ℕ → ℕ → ℕ → ℕ → Bool
utf8_scan [] need lo hi = need == 0
utf8_scan (b ∷ rest) zero lo hi = elim (lead b) [
  | none ↦ false
  | some (need, lo', hi') ↦ utf8_scan rest need lo' hi'
]
utf8_scan (b ∷ rest) (suc need) lo hi =
    let more = utf8_scan rest need 0x80 0xBF in if leb lo b && leb b hi then more else false

unfoldable pub is_utf8 : List ℕ → Bool
unfolding utf8_scan
is_utf8 bytes = utf8_scan bytes 0 0 0

-- `String::from_utf8`, up to the error's text. A `String` is its bytes.
unfoldable pub from_utf8 : List ℕ → Option (List ℕ)
from_utf8 bytes = if is_utf8 bytes then some bytes else none
