-- ===== src/Crypto/Crates.antt =====
-- What the crate `crypto` calls and does not implement: num-bigint, ring and base64.
use da_concept.Base.{
  ℕ, ◌+◌, ◌-◌, ◌*◌, ◌%◌, ◌^◌, ◌≤◌, ◌<◌, ◌≡◌, ◌≢◌, Option, some, List, [], ◌∷◌, length, All, ◌==◌,
  if◌then◌else◌,
}
use mathlib.Core.List.{foldl}
use da_concept.Base.Outcome.{Outcome, ok, panic}
use da_concept.Crypto.Types.{CryptoError}

abbrev pub IsByte : ℕ → Type 0
IsByte b = b < 256

pub record Crates : Type 1 where
  -- num-bigint. `modpow` panics (`none`) if the modulus is zero, `modinv` returns an `Option`.
  pub modpow : ℕ → ℕ → ℕ → Option ℕ
  pub modinv : ℕ → ℕ → Option ℕ
  pub to_bytes_le : ℕ → List ℕ
  pub from_bytes_le : List ℕ → ℕ
  pub from_bytes_be : List ℕ → ℕ
  pub to_u32_digits : ℕ → List ℕ
  pub parse_bytes : List ℕ → ℕ → Option ℕ
  -- ring: the 32 bytes of the n-th request to the system's generator, or its failure.
  pub generate : ℕ → Option (List ℕ)
  -- base64, the engine STANDARD. A text is its bytes.
  pub DecodeError : Type 0
  pub encode : List ℕ → List ℕ
  pub decode : List ℕ → Outcome DecodeError (List ℕ)

abbrev pub IsDigit : ℕ → Type 0
IsDigit c = (b'0' ≤ c) × (c ≤ b'9')

-- The number that a row of ASCII digits spells.
abbrev pub decimal : List ℕ → ℕ
decimal = foldl (λ n c. n * 10 + (c - b'0')) 0

-- The documented behaviour that the code relies on.
pub record IsLawful (crates : Crates) : Type 0 where
  pub modpow-eq : (b e m : ℕ) → 0 < m → crates.modpow b e m ≡ some (b ^ e % m)
  pub modinv-unit :
      (a u m : ℕ) → 1 < m → a * u % m ≡ 1 → (v : ℕ) × (crates.modinv a m ≡ some v) × (a * v % m ≡ 1)
  pub length-to_bytes_le : (n k : ℕ) → 0 < k → n < 256 ^ k → length (crates.to_bytes_le n) ≤ k
  pub from_bytes_le-to_bytes_le : (n : ℕ) → crates.from_bytes_le (crates.to_bytes_le n) ≡ n
  pub to_u32_digits-zero : crates.to_u32_digits 0 ≡ []
  pub to_u32_digits-pos :
      (n : ℕ) → 0 < n → (more : List ℕ) × (crates.to_u32_digits n ≡ (n % 2 ^ 32) ∷ more)
  pub parse_bytes-decimal :
      (text : List ℕ)
      → text ≢ []
      → All IsDigit text
      → crates.parse_bytes text 10 ≡ some (decimal text)
  pub decode-encode : (bytes : List ℕ) → crates.decode (crates.encode bytes) ≡ ok bytes

-- The system's random generator never fails.
abbrev pub IsAvailable : Crates → Type 0
IsAvailable crates = (n : ℕ) → (bytes : List ℕ) × (crates.generate n ≡ some bytes)

-- A result of the crate `crypto`.
abbrev pub Result {ℓ} : Crates → Type ℓ → Type ℓ
Result crates A = Outcome (CryptoError crates.DecodeError) A

-- `%` on `BigUint` panics on a zero divisor.
abbrev pub rem : {E : Type 0} → ℕ → ℕ → Outcome E ℕ
rem a m = if m == 0 then panic else ok (a % m)
