-- ===== src/Base/Modular.antt =====
-- Powers and products modulo a number.
use Prim.Native.Nat.{ℕ, zero, suc, ◌+◌, ◌*◌, ◌/◌, ◌%◌, ◌^◌}
use mathlib.Core.Path.{◌≡◌, sym, ap, ◌∙◌}
use native.Mathlib.Nat.{
  add-mul-mod_self_left, mod-add-div, pow-suc, pow-zero, add-zero, add-suc, mul-zero, mul-suc,
  mul_comm, mul_assoc,
}
use native.Mathlib.Omega.{arith}

pub mod-mul-mod : (a b m : ℕ) → a % m * b % m ≡ a * b % m
mod-mul-mod a b m =
    sym (add-mul-mod_self_left (a % m * b) m (a / m * b))
    ∙ ap (λ t. t % m)
        (let e : a % m * b + m * (a / m * b) ≡ a * b =
            omega (arith, ap (λ t. t * b) (mod-add-div a m)) in
          e)

pub mul-mod-mod : (a b m : ℕ) → a * (b % m) % m ≡ a * b % m
mul-mod-mod a b m =
    ap (λ t. t % m) (mul_comm a (b % m)) ∙ mod-mul-mod b a m ∙ ap (λ t. t % m) (mul_comm b a)

pub pow-mod : (a n m : ℕ) → (a % m) ^ n % m ≡ a ^ n % m
pow-mod a zero m = rw (pow-zero, pow-zero)
pow-mod a (suc n) m =
    ap (λ t. t % m) (pow-suc (a % m) n)
    ∙ mul-mod-mod ((a % m) ^ n) a m
    ∙ sym (mod-mul-mod ((a % m) ^ n) a m)
    ∙ ap (λ t. t * a % m) (pow-mod a n m)
    ∙ mod-mul-mod (a ^ n) a m
    ∙ ap (λ t. t % m) (sym (pow-suc a n))

pub pow-add : (a n k : ℕ) → a ^ (n + k) ≡ a ^ n * a ^ k
pow-add a n zero = rw (add-zero, pow-zero) (omega arith)
pow-add a n (suc k) = rw (add-suc, pow-suc, pow-suc, pow-add a n k) (mul_assoc (a ^ n) (a ^ k) a)

pub pow-mul : (a n k : ℕ) → a ^ (n * k) ≡ (a ^ n) ^ k
pow-mul a n zero = rw (mul-zero, pow-zero, pow-zero)
pow-mul a n (suc k) = rw (mul-suc, pow-add, pow-suc, pow-mul a n k)

-- The two exponentiations of a key exchange agree.
pub pow_swap : (a n k m : ℕ) → (a ^ n % m) ^ k % m ≡ (a ^ k % m) ^ n % m
pow_swap a n k m =
    pow-mod (a ^ n) k m
    ∙ ap (λ t. t % m) (sym (pow-mul a n k) ∙ ap (λ t. a ^ t) (mul_comm n k) ∙ pow-mul a k n)
    ∙ sym (pow-mod (a ^ k) n m)

mul_swap : (a b c d : ℕ) → a * b * (c * d) ≡ a * c * (b * d)
mul_swap a b c d = omega arith

mul-pow : (a b n : ℕ) → (a * b) ^ n ≡ a ^ n * b ^ n
mul-pow a b zero = rw (pow-zero, pow-zero, pow-zero) (omega arith)
mul-pow a b (suc n) = rw (pow-suc, pow-suc, pow-suc, mul-pow a b n) (mul_swap (a ^ n) (b ^ n) a b)

one-pow : (n : ℕ) → 1 ^ n ≡ 1
one-pow zero = pow-zero 1
one-pow (suc n) = rw (pow-suc, one-pow n)

-- A power of a unit is a unit.
pub pow_unit : (g u n m : ℕ) → g * u % m ≡ 1 → g ^ n % m * u ^ n % m ≡ 1 % m
pow_unit g u n m h =
    mod-mul-mod (g ^ n) (u ^ n) m
    ∙ ap (λ t. t % m) (sym (mul-pow g u n))
    ∙ sym (pow-mod (g * u) n m)
    ∙ ap (λ t. t ^ n % m) h
    ∙ ap (λ t. t % m) (one-pow n)
