-- ===== src/Node/World/Quiet.antt =====
-- Actions that never panic and leave the sync manager alone, with one rule for each way to build one.
use da_concept.Base.{ℕ, ◌≡◌, ◌≢◌, refl, ◌∙◌, Bool, true, false, Option, none, some, if◌then◌else◌}
use da_concept.Base.Outcome.{Outcome, ok, err, panic}
use da_concept.Node.Database.{Db}
use da_concept.Node.World.{
  Env, World, M, pure, throw, gets, continue, caught, converted, attempt, map_err, utc_now, query,
  written, tick, ◌>>=◌,
}

pub record Quiet {E A : Type 0} (m : M E A) : Type 0 where
  pub no_panic : (w : World) → (m w).0 ≢ panic
  pub same_manager : (w : World) → (m w).1.manager ≡ w.manager

pub Quiet-pure : {E A : Type 0} (a : A) → Quiet (pure {E = E} a)
unfolding pure
Quiet-pure a = record { no_panic = λ w e. cc; same_manager = λ w. refl }

pub Quiet-throw : {E A : Type 0} (e : E) → Quiet (throw {A = A} e)
unfolding throw
Quiet-throw e = record { no_panic = λ w e. cc; same_manager = λ w. refl }

pub Quiet-gets : {E A : Type 0} (f : World → A) → Quiet (gets {E = E} f)
unfolding gets
Quiet-gets f = record { no_panic = λ w e. cc; same_manager = λ w. refl }

pub Quiet-utc_now : {E : Type 0} (env : Env) → Quiet (utc_now env {E = E})
unfolding utc_now
Quiet-utc_now env = record { no_panic = λ w e. cc; same_manager = λ w. refl }

written-Quiet :
    {E A : Type 0} (e : E) (o : Option (A × Db)) (w : World)
    → ((written e o w).0 ≢ panic) × ((written e o w).1.manager ≡ w.manager)
written-Quiet e none w = (λ p. cc, refl)
written-Quiet e (some (a, db)) w = (λ p. cc, refl)

query-Quiet :
    {E A : Type 0} (e : E) (fault : Bool) (o : Option (A × Db)) (w : World)
    → ((if fault then (err e, tick w) else written e o (tick w)).0 ≢ panic)
      × ((if fault then (err e, tick w) else written e o (tick w)).1.manager ≡ w.manager)
query-Quiet e true o w = (λ p. cc, refl)
query-Quiet e false o w = written-Quiet e o (tick w)

pub Quiet-query :
    {E A : Type 0} (env : Env) (e : E) (run : ℕ → Db → Option (A × Db)) → Quiet (query env e run)
unfolding query
Quiet-query env e run = record {
  no_panic = λ w. (query-Quiet e (env.db_fault w.ticks) (run (env.now w.ticks) w.db) w).0;
  same_manager = λ w. (query-Quiet e (env.db_fault w.ticks) (run (env.now w.ticks) w.db) w).1;
}

continue-Quiet :
    {E A B : Type 0} (f : A → M E B) (r : Outcome E A) (w : World)
    → r ≢ panic
    → ((a : A) → Quiet (f a))
    → ((continue r f w).0 ≢ panic) × ((continue r f w).1.manager ≡ w.manager)
continue-Quiet f (ok a) w h k = ((k a).no_panic w, (k a).same_manager w)
continue-Quiet f (err e) w h k = (λ p. cc, refl)
continue-Quiet f panic w h k = absurd (h refl)

pub Quiet-bind :
    {E A B : Type 0} (m : M E A) (f : A → M E B)
    → Quiet m
    → ((a : A) → Quiet (f a))
    → Quiet (m >>= f)
unfolding ◌>>=◌
Quiet-bind m f km kf = record {
  no_panic = λ w. (continue-Quiet f (m w).0 (m w).1 (km.no_panic w) kf).0;
  same_manager = λ w. (continue-Quiet f (m w).0 (m w).1 (km.no_panic w) kf).1 ∙ km.same_manager w;
}

pub Quiet-if :
    {E A : Type 0} (b : Bool) (m n : M E A) → Quiet m → Quiet n → Quiet (if b then m else n)
Quiet-if true m n km kn = km
Quiet-if false m n km kn = kn

pub Quiet-option :
    {E A B : Type 0} (o : Option B) (m : M E A) (f : B → M E A)
    → Quiet m
    → ((b : B) → Quiet (f b))
    → Quiet (elim o [ none ↦ m | some b ↦ f b ])
Quiet-option none m f km kf = km
Quiet-option (some b) m f km kf = kf b

caught-Quiet : {E F A : Type 0} (r : Outcome E A) → r ≢ panic → caught {F = F} r ≢ panic
caught-Quiet (ok a) h p = cc
caught-Quiet (err e) h p = cc
caught-Quiet panic h p = h refl

pub Quiet-attempt : {E F A : Type 0} (m : M E A) → Quiet m → Quiet (attempt {F = F} m)
unfolding attempt
Quiet-attempt m km = record {
  no_panic = λ w. caught-Quiet (m w).0 (km.no_panic w);
  same_manager = λ w. km.same_manager w;
}

converted-Quiet : {E F A : Type 0} (f : E → F) (r : Outcome E A) → r ≢ panic → converted f r ≢ panic
converted-Quiet f (ok a) h p = cc
converted-Quiet f (err e) h p = cc
converted-Quiet f panic h p = h refl

pub Quiet-map_err : {E F A : Type 0} (f : E → F) (m : M E A) → Quiet m → Quiet (map_err f m)
unfolding map_err
Quiet-map_err f m km = record {
  no_panic = λ w. converted-Quiet f (m w).0 (km.no_panic w);
  same_manager = λ w. km.same_manager w;
}

pub ruleset quiet_rules = (
  Quiet-pure, Quiet-throw, Quiet-gets, Quiet-utc_now, Quiet-query, Quiet-bind, Quiet-if,
  Quiet-attempt, Quiet-map_err,
)
