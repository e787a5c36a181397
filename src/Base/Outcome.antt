-- ===== src/Base/Outcome.antt =====
-- The result of a Rust call: `Ok`, `Err`, or an unwinding panic.
use da_concept.Base.Tests.{if◌then◌else◌}
use mathlib.Core.Path.{◌≡◌, refl, ap}
use mathlib.Core.Logic.{◌⊎◌, inl, inr}
use mathlib.Core.Bool.{Bool}
use mathlib.Core.Option.{Option, none, some}

pub data Outcome {ℓ} (E : Type 0) (A : Type ℓ) : Type ℓ where
  ok : A → Outcome E A
  err : E → Outcome E A
  panic : Outcome E A

module _ {E : Type 0} where
  infixl 5 ◌>>=◌ ◌>>◌
  abbrev pub ◌>>=◌ {ℓ κ} : {A : Type ℓ} {B : Type κ} → Outcome E A → (A → Outcome E B) → Outcome E B
  panic >>= f = panic
  err e >>= f = err e
  ok a >>= f = f a

  abbrev pub ◌>>◌ {ℓ} : {B : Type ℓ} → Outcome E (Unit {0}) → Outcome E B → Outcome E B
  m >> k = m >>= λ _. k

  -- `.unwrap()` of an `Option`, and of a `Result`.
  abbrev pub unwrap {ℓ} : {A : Type ℓ} → Option A → Outcome E A
  unwrap none = panic
  unwrap (some a) = ok a

  abbrev pub unwrap_ok {ℓ} : {A : Type ℓ} → Outcome E A → Outcome E A
  unwrap_ok (ok a) = ok a
  unwrap_ok (err e) = panic
  unwrap_ok panic = panic

  -- `.ok_or(e)?`
  abbrev pub ok_or {ℓ} : {A : Type ℓ} → Option A → E → Outcome E A
  ok_or none e = err e
  ok_or (some a) e = ok a

  -- `if bad { return Err(e); }`
  abbrev pub reject_if : Bool → E → Outcome E (Unit {0})
  reject_if bad e = if bad then err e else ok tt

  pub Outcome-cases {ℓ} :
      {A : Type ℓ} (r : Outcome E A)
      → ((a : A) × (r ≡ ok a)) ⊎ (((e : E) × (r ≡ err e)) ⊎ (r ≡ panic))
  Outcome-cases (ok a) = inl (a, refl)
  Outcome-cases (err e) = inr (inl (e, refl))
  Outcome-cases panic = inr (inr refl)

  -- A sequence that returns has a first part that does.
  pub bind-ok {ℓ κ} :
      {A : Type ℓ} {B : Type κ} (m : Outcome E A) (f : A → Outcome E B) {b : B}
      → (m >>= f) ≡ ok b
      → (a : A) × (m ≡ ok a) × (f a ≡ ok b)
  bind-ok panic f h = cc
  bind-ok (err e) f h = cc
  bind-ok (ok a) f h = (a, refl, h)

  pub ok-injective {ℓ} : {A : Type ℓ} {a b : A} → ◌≡◌ {A = Outcome E A} (ok a) (ok b) → a ≡ b
  ok-injective {a = a} e = ap (λ r. elim r [ ok x ↦ x | err x ↦ a | panic ↦ a ]) e

  -- A panic of `m` followed by a function comes from `m`.
  pub bind_panic {ℓ κ} :
      {A : Type ℓ} {B : Type κ} (m : Outcome E A) (f : A → B)
      → (do x ← m; ok (f x)) ≡ panic
      → m ≡ panic
  bind_panic (ok a) f h = cc
  bind_panic (err e) f h = cc
  bind_panic panic f h = refl
