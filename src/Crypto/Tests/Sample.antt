-- ===== src/Crypto/Tests/Sample.antt =====
-- Functions that behave as num-bigint, ring and base64 are documented to.
use mathlib.Core.List.{foldr, foldl}
use native.Mathlib.Nat.{pow-suc, mod-lt}
use da_concept.Base.{
  ℕ, zero, suc, ◌+◌, ◌*◌, ◌/◌, ◌%◌, ◌^◌, ◌≤◌, ◌<◌, ◌≡◌, ◌≢◌, refl, ◌∙◌, Option, none, some, List,
  [], ◌∷◌, length, ltb, ◌==◌, if◌then◌else◌, arith, Bool-cases, inl, inr,
}
use da_concept.Base.Modular.{mul-mod-mod}
use da_concept.Base.Outcome.{ok}
use da_concept.Crypto.Crates.{Crates, IsLawful, IsAvailable, decimal}

unfoldable pub modpow : ℕ → ℕ → ℕ → Option ℕ
modpow b e m = if m == 0 then none else some (b ^ e % m)

-- The greatest inverse below `n`.
pub find : ℕ → ℕ → ℕ → Option ℕ
find a m zero = none
find a m (suc v) = let smaller = find a m v in if a * v % m == 1 then some v else smaller

unfoldable pub modinv : ℕ → ℕ → Option ℕ
unfolding find
modinv a m = find a m m

find_lem : (a m n u : ℕ) → u < n → a * u % m ≡ 1 → (v : ℕ) × (find a m n ≡ some v) × (a * v % m ≡ 1)
unfolding find
find_lem a m zero u h e = elim h [ ]
find_lem a m (suc v) u h e = elim (Bool-cases (a * v % m == 1)) [
  | inl found ↦ (v, rw found, ground arith)
  | inr missed ↦ rw missed (find_lem a m v u (below (ground arith)) e)
]
  where
    below : u ≢ v → u < v
    below differ = omega arith

modinv_lem : (a u m : ℕ) → 1 < m → a * u % m ≡ 1 → (v : ℕ) × (modinv a m ≡ some v) × (a * v % m ≡ 1)
unfolding modinv
modinv_lem a u m h e = find_lem a m m (u % m) (mod-lt u (omega arith)) (mul-mod-mod a u m ∙ e)

-- Digits to a base, the lowest first; at least one.
digits_upto : ℕ → ℕ → List ℕ
digits_upto zero n = n ∷ []
digits_upto (suc fuel) n =
    let more = digits_upto fuel (n / 256) in if ltb n 256 then n ∷ [] else (n % 256) ∷ more

pub to_bytes_le : ℕ → List ℕ
unfolding digits_upto
to_bytes_le n = digits_upto n n

unfoldable pub from_bytes_le : List ℕ → ℕ
from_bytes_le = foldr (λ b n. b + 256 * n) 0

digits_upto_lem : (fuel n : ℕ) → n ≤ fuel → from_bytes_le (digits_upto fuel n) ≡ n
unfolding digits_upto from_bytes_le
digits_upto_lem zero n h = omega arith
digits_upto_lem (suc fuel) n h = ground (arith, digits_upto_lem fuel (n / 256))

length-digits_upto :
    (fuel n k : ℕ) → n ≤ fuel → 0 < k → n < 256 ^ k → length (digits_upto fuel n) ≤ k
unfolding digits_upto
length-digits_upto zero n k h p b = omega arith
length-digits_upto (suc fuel) n zero h p b = elim p [ ]
length-digits_upto (suc fuel) n (suc zero) h p b = ground arith
length-digits_upto (suc fuel) n (suc (suc k)) h p b =
    ground (arith, pow-suc 256 (suc k), length-digits_upto fuel (n / 256) (suc k))

abbrev to_u32_digits : ℕ → List ℕ
to_u32_digits zero = []
to_u32_digits (suc n) = (suc n % 2 ^ 32) ∷ to_bytes_le (suc n / 2 ^ 32)

to_u32_digits_lem : (n : ℕ) → 0 < n → (more : List ℕ) × (to_u32_digits n ≡ (n % 2 ^ 32) ∷ more)
to_u32_digits_lem zero h = elim h [ ]
to_u32_digits_lem (suc n) h = (to_bytes_le (suc n / 2 ^ 32), refl)

abbrev pub crates : Crates
crates = record {
  modpow = modpow;
  modinv = modinv;
  to_bytes_le = to_bytes_le;
  from_bytes_le = from_bytes_le;
  from_bytes_be = foldl (λ n b. n * 256 + b) 0;
  to_u32_digits = to_u32_digits;
  parse_bytes = λ text radix. some (decimal text);
  generate = λ n. some (n ∷ 7 ∷ []);
  DecodeError = Unit {0};
  encode = λ bytes. bytes;
  decode = λ bytes. ok bytes;
}

modpow_lem : (b e m : ℕ) → 0 < m → modpow b e m ≡ some (b ^ e % m)
unfolding modpow
modpow_lem b e m h = ground arith

pub crates-IsLawful : IsLawful crates
unfolding to_bytes_le
crates-IsLawful = record {
  modpow-eq = modpow_lem;
  modinv-unit = modinv_lem;
  length-to_bytes_le = λ n k p b. length-digits_upto n n k (omega arith) p b;
  from_bytes_le-to_bytes_le = λ n. digits_upto_lem n n (omega arith);
  to_u32_digits-zero = refl;
  to_u32_digits-pos = to_u32_digits_lem;
  parse_bytes-decimal = λ text h k. refl;
  decode-encode = λ bytes. refl;
}

pub crates-IsAvailable : IsAvailable crates
crates-IsAvailable n = (n ∷ 7 ∷ [], refl)
