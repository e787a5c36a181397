-- ===== src/Node/World/Succeeds.antt =====
-- Actions that always return, with one rule for each way to build one.
use da_concept.Base.{◌≡◌, refl, inl, inr}
use da_concept.Base.Outcome.{ok, Outcome-cases}
use da_concept.Node.Manager.{SyncManager}
use da_concept.Node.World.{Env, World, M, utc_now, pure, attempt, joined, modify_manager, ◌>>=◌}
use da_concept.Node.World.Quiet.{Quiet}

pub record Succeeds {E A : Type 0} (m : M E A) : Type 0 where
  pub returns : (w : World) → (a : A) × ((m w).0 ≡ ok a)

pub Succeeds-pure : {E A : Type 0} (a : A) → Succeeds (pure {E = E} a)
unfolding pure
Succeeds-pure a = record { returns = λ w. (a, refl) }

pub Succeeds-modify :
    {E : Type 0} (f : SyncManager → SyncManager) → Succeeds (modify_manager {E = E} f)
unfolding modify_manager
Succeeds-modify f = record { returns = λ w. (tt, refl) }

pub Succeeds-utc_now : {E : Type 0} (env : Env) → Succeeds (utc_now env {E = E})
unfolding utc_now
Succeeds-utc_now env = record { returns = λ w. (_, refl) }

pub Succeeds-joined : {E F A : Type 0} (m : M E A) → Succeeds (joined {F = F} m)
unfolding joined
Succeeds-joined m = record { returns = λ w. ((m w).0, refl) }

pub Succeeds-attempt : {E F A : Type 0} (m : M E A) → Quiet m → Succeeds (attempt {F = F} m)
unfolding attempt
Succeeds-attempt m quiet = record {
  returns = λ w. elim (Outcome-cases (m w).0) [
    | inl (a, e) ↦ (inl a, rw e)
    | inr (inl (e, f)) ↦ (inr e, rw f)
    | inr (inr p) ↦ absurd (quiet.no_panic w p)
  ];
}

pub Succeeds-bind :
    {E A B : Type 0} (m : M E A) (f : A → M E B)
    → Succeeds m
    → ((a : A) → Succeeds (f a))
    → Succeeds (m >>= f)
unfolding ◌>>=◌
Succeeds-bind m f sm sf = record {
  returns = λ w. let (a, e) = sm.returns w in let (b, d) = (sf a).returns (m w).1 in (b, rw (e, d));
}
