-- ===== src/Base/Bits.antt =====
-- The bit operations that the source uses, as arithmetic.
use Prim.Native.Nat.{
  ℕ, zero, suc, ◌+◌, ◌*◌, ◌/◌, ◌%◌, ◌^◌, ◌≤◌, ◌<◌, min, max, bit_and, bit_or, digits,
  bit_and-bitwise, bit_or-bitwise,
}
use mathlib.Core.Path.{◌≡◌, refl, ap}
use native.Mathlib.Nat.{pow-suc}
use native.Mathlib.Omega.{arith}

-- One digit at a time, with more fuel than the first number needs. `rest` is what stands behind
-- the digits of the first number: the second number for `|`, nothing for `&`.
module _ (rest : ℕ → ℕ) (op : ℕ → ℕ → ℕ) where
  abbrev run : ℕ → ℕ → ℕ → ℕ
  run n a b = digits rest op n a b

  run_fuel : (n m a b : ℕ) → a ≤ n → a ≤ m → run n a b ≡ run m a b
  run_fuel zero zero a b p q = refl
  run_fuel zero (suc m) zero b p q = refl
  run_fuel zero (suc m) (suc a) b p q = absurd (omega arith)
  run_fuel (suc n) zero zero b p q = refl
  run_fuel (suc n) zero (suc a) b p q = absurd (omega arith)
  run_fuel (suc n) (suc m) zero b p q = refl
  run_fuel (suc n) (suc m) (suc a) b p q =
      ap (λ t. t * 2 + op (suc a % 2) (b % 2))
        (run_fuel n m (suc a / 2) (b / 2) (omega arith) (omega arith))

or_step : (a b : ℕ) → bit_or a b ≡ bit_or (a / 2) (b / 2) * 2 + max (a % 2) (b % 2)
or_step zero b = omega (arith, bit_or-bitwise 0 b, bit_or-bitwise 0 (b / 2))
or_step (suc a) b = omega (
  arith,
  bit_or-bitwise (suc a) b,
  bit_or-bitwise (suc a / 2) (b / 2),
  run_fuel (λ y. y) max a (suc a / 2) (suc a / 2) (b / 2) (omega arith) (omega arith),
)

and_step : (a b : ℕ) → bit_and a b ≡ bit_and (a / 2) (b / 2) * 2 + min (a % 2) (b % 2)
and_step zero b = omega (arith, bit_and-bitwise 0 b, bit_and-bitwise 0 (b / 2))
and_step (suc a) b = omega (
  arith,
  bit_and-bitwise (suc a) b,
  bit_and-bitwise (suc a / 2) (b / 2),
  run_fuel (λ y. zero) min a (suc a / 2) (suc a / 2) (b / 2) (omega arith) (omega arith),
)

zero-bit_or : (b : ℕ) → bit_or 0 b ≡ b
zero-bit_or b = bit_or-bitwise 0 b

and_zero_upto : (n a : ℕ) → a ≤ n → bit_and a 0 ≡ 0
and_zero_upto n zero h = bit_and-bitwise 0 0
and_zero_upto zero (suc a) h = absurd (omega arith)
and_zero_upto (suc n) (suc a) h =
    omega (arith, and_step (suc a) 0, and_zero_upto n (suc a / 2) (omega arith))

-- `v | (q << k)` for `v` below bit `k` is a sum.
pub bit_or_shifted : (k v q : ℕ) → v < 2 ^ k → bit_or v (q * 2 ^ k) ≡ v + q * 2 ^ k
bit_or_shifted zero zero q h = omega (arith, zero-bit_or (q * 2 ^ 0))
bit_or_shifted zero (suc v) q h = absurd (omega arith)
bit_or_shifted (suc k) v q h =
    let p : q * 2 ^ suc k ≡ q * 2 ^ k * 2 = omega (arith, ap (λ t. q * t) (pow-suc 2 k)) in
    let s : 2 ^ suc k ≡ 2 ^ k * 2 = pow-suc 2 k in
    omega (
      arith,
      or_step v (q * 2 ^ suc k),
      ap (λ t. bit_or (v / 2) t) (let e : q * 2 ^ suc k / 2 ≡ q * 2 ^ k = omega arith in e),
      bit_or_shifted k (v / 2) q (omega arith),
    )

and_odd : (a m : ℕ) → bit_and a (m * 2 + 1) ≡ bit_and (a / 2) m * 2 + a % 2
and_odd a m = omega (
  arith,
  and_step a (m * 2 + 1),
  ap (bit_and (a / 2)) (let e : (m * 2 + 1) / 2 ≡ m = omega arith in e),
)

and_one : (a : ℕ) → bit_and a 1 ≡ a % 2
and_one a = omega (arith, and_odd a 0, and_zero_upto (a / 2) (a / 2) (omega arith))

-- `a & 0xFF` is the lowest byte.
pub bit_and_byte : (a : ℕ) → bit_and a 0xFF ≡ a % 256
bit_and_byte a = omega (
  arith,
  and_odd a 127,
  and_odd (a / 2) 63,
  and_odd (a / 2 / 2) 31,
  and_odd (a / 2 / 2 / 2) 15,
  and_odd (a / 2 / 2 / 2 / 2) 7,
  and_odd (a / 2 / 2 / 2 / 2 / 2) 3,
  and_odd (a / 2 / 2 / 2 / 2 / 2 / 2) 1,
  and_one (a / 2 / 2 / 2 / 2 / 2 / 2 / 2),
)
