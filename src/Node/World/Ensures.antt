-- ===== src/Node/World/Ensures.antt =====
-- How an action may change the world, whatever its result: a preorder on worlds, with one rule for
-- each way to build an action.
use da_concept.Base.{ℕ, ◌≡◌, refl, Bool, true, false, Option, none, some, if◌then◌else◌}
use mathlib.Core.Path.{subst}
use da_concept.Base.Outcome.{Outcome, ok, err, panic}
use da_concept.Node.Database.{Db}
use da_concept.Node.World.{
  Env, World, M, pure, throw, gets, continue, attempt, joined, map_err, utc_now, query, written,
  tick, ◌>>=◌,
}

pub record Ensures {E A : Type 0} (Q : World → World → Type 0) (m : M E A) : Type 0 where
  pub at : (w : World) → Q w (m w).1

-- A preorder on worlds that sees the database and the manager only, not the connections and not the
-- count of interactions.
pub record IsFrame (Q : World → World → Type 0) : Type 0 where
  pub unseen : (v w : World) → w.db ≡ v.db → w.manager ≡ v.manager → Q v w
  pub and_then : (u v w : World) → Q u v → Q v w → Q u w

module _ {Q : World → World → Type 0} (frame : IsFrame Q) where
  pub Ensures-pure : {E A : Type 0} (a : A) → Ensures Q (pure {E = E} a)
  unfolding pure
  Ensures-pure a = record { at = λ w. frame.unseen w w refl refl }

  pub Ensures-throw : {E A : Type 0} (e : E) → Ensures Q (throw {A = A} e)
  unfolding throw
  Ensures-throw e = record { at = λ w. frame.unseen w w refl refl }

  pub Ensures-gets : {E A : Type 0} (f : World → A) → Ensures Q (gets {E = E} f)
  unfolding gets
  Ensures-gets f = record { at = λ w. frame.unseen w w refl refl }

  pub Ensures-utc_now : {E : Type 0} (env : Env) → Ensures Q (utc_now env {E = E})
  unfolding utc_now
  Ensures-utc_now env = record { at = λ w. frame.unseen w (tick w) refl refl }

  Ensures-continue :
      {E A B : Type 0} (f : A → M E B) (r : Outcome E A) (v w : World)
      → Q v w
      → ((a : A) → Ensures Q (f a))
      → Q v (continue r f w).1
  Ensures-continue f (ok a) v w h k = frame.and_then v w _ h ((k a).at w)
  Ensures-continue f (err e) v w h k = h
  Ensures-continue f panic v w h k = h

  pub Ensures-bind :
      {E A B : Type 0} (m : M E A) (f : A → M E B)
      → Ensures Q m
      → ((a : A) → Ensures Q (f a))
      → Ensures Q (m >>= f)
  unfolding ◌>>=◌
  Ensures-bind m f km kf = record { at = λ w. Ensures-continue f (m w).0 w (m w).1 (km.at w) kf }

  pub Ensures-if :
      {E A : Type 0} (b : Bool) (m n : M E A)
      → Ensures Q m
      → Ensures Q n
      → Ensures Q (if b then m else n)
  Ensures-if true m n km kn = km
  Ensures-if false m n km kn = kn

  pub Ensures-option :
      {E A B : Type 0} (o : Option B) (m : M E A) (f : B → M E A)
      → Ensures Q m
      → ((b : B) → Ensures Q (f b))
      → Ensures Q (elim o [ none ↦ m | some b ↦ f b ])
  Ensures-option none m f km kf = km
  Ensures-option (some b) m f km kf = kf b

pub Ensures-attempt :
    {E F A : Type 0} (Q : World → World → Type 0) (m : M E A)
    → Ensures Q m
    → Ensures Q (attempt {F = F} m)
unfolding attempt
Ensures-attempt Q m km = record { at = λ w. km.at w }

pub Ensures-joined :
    {E F A : Type 0} (Q : World → World → Type 0) (m : M E A)
    → Ensures Q m
    → Ensures Q (joined {F = F} m)
unfolding joined
Ensures-joined Q m km = record { at = λ w. km.at w }

pub Ensures-map_err :
    {E F A : Type 0} (Q : World → World → Type 0) (f : E → F) (m : M E A)
    → Ensures Q m
    → Ensures Q (map_err f m)
unfolding map_err
Ensures-map_err Q f m km = record { at = λ w. km.at w }

-- A statement changes nothing but the database, and that as `run` says.
written_changes :
    {E A : Type 0} (Q : World → Type 0) (e : E) (o : Option (A × Db)) (w : World)
    → Q w
    → ((a : A) (db : Db) → o ≡ some (a, db) → Q (record w { db = db }))
    → Q (written e o w).1
written_changes Q e none w h k = h
written_changes Q e (some (a, db)) w h k = k a db refl

fault_changes :
    {E A : Type 0} (Q : World → Type 0) (e : E) (fault : Bool) (o : Option (A × Db)) (w : World)
    → Q (tick w)
    → ((a : A) (db : Db) → o ≡ some (a, db) → Q (record (tick w) { db = db }))
    → Q (if fault then (err e, tick w) else written e o (tick w)).1
fault_changes Q e true o w h k = h
fault_changes Q e false o w h k = written_changes Q e o (tick w) h k

pub query_changes :
    {E A : Type 0} (Q : World → Type 0) (env : Env) (e : E) (run : ℕ → Db → Option (A × Db))
    (w : World)
    → Q (tick w)
    → ((clock : ℕ) (a : A) (db : Db)
        → run clock w.db ≡ some (a, db)
        → Q (record (tick w) { db = db }))
    → Q (query env e run w).1
unfolding query
query_changes Q env e run w h k =
    fault_changes Q e (env.db_fault w.ticks) (run (env.now w.ticks) w.db) w h (k (env.now w.ticks))

module _ {Q : World → World → Type 0} (frame : IsFrame Q) where
  pub Ensures-query :
      {E A : Type 0} (env : Env) (e : E) (run : ℕ → Db → Option (A × Db))
      → ((clock : ℕ) (w : World) (a : A) (db : Db)
          → run clock w.db ≡ some (a, db)
          → Q w (record w { db = db }))
      → Ensures Q (query env e run)
  Ensures-query env e run h = record {
    at = λ w.
        query_changes (λ u. Q w u) env e run w (frame.unseen w (tick w) refl refl)
          (λ clock a db p.
            frame.and_then w (tick w) _ (frame.unseen w (tick w) refl refl)
              (h clock (tick w) a db p));
  }

  -- A statement that only reads.
  pub Ensures-read :
      {E A : Type 0} (env : Env) (e : E) (run : ℕ → Db → Option (A × Db))
      → ((clock : ℕ) (d db : Db) (a : A) → run clock d ≡ some (a, db) → d ≡ db)
      → Ensures Q (query env e run)
  Ensures-read env e run h = Ensures-query env e run λ clock w a db p.
      subst (λ d. Q w (record w { db = d })) (h clock w.db db a p) (frame.unseen w w refl refl)

pub ruleset frame_rules = (
  Ensures-pure, Ensures-throw, Ensures-gets, Ensures-utc_now, Ensures-bind, Ensures-if,
  Ensures-attempt, Ensures-joined, Ensures-map_err,
)

-- An action that returned a value did so in its last part.
bind_ok_cases :
    {E A B : Type 0} (f : A → M E B) (r : Outcome E A) (w : World) (b : B)
    → (continue r f w).0 ≡ ok b
    → (a : A) × (r ≡ ok a) × ((f a w).0 ≡ ok b)
bind_ok_cases f (ok a) w b h = (a, refl, h)
bind_ok_cases f (err e) w b h = cc
bind_ok_cases f panic w b h = cc

pub bind_ok :
    {E A B : Type 0} (m : M E A) (f : A → M E B) (w : World) (b : B)
    → ((m >>= f) w).0 ≡ ok b
    → (a : A) × ((m w).0 ≡ ok a) × ((f a (m w).1).0 ≡ ok b)
unfolding ◌>>=◌
bind_ok m f w b h = bind_ok_cases f (m w).0 (m w).1 b h

-- How a bind may change the world, where the rest may use what the first part returned.
bind_changes_cases :
    {E A B : Type 0} (Q : World → Type 0) (f : A → M E B) (r : Outcome E A) (w : World)
    → Q w
    → ((a : A) → r ≡ ok a → Q (f a w).1)
    → Q (continue r f w).1
bind_changes_cases Q f (ok a) w h k = k a refl
bind_changes_cases Q f (err e) w h k = h
bind_changes_cases Q f panic w h k = h

pub bind_changes :
    {E A B : Type 0} (Q : World → Type 0) (m : M E A) (f : A → M E B) (w : World)
    → Q (m w).1
    → ((a : A) → (m w).0 ≡ ok a → Q (f a (m w).1).1)
    → Q ((m >>= f) w).1
unfolding ◌>>=◌
bind_changes Q m f w h k = bind_changes_cases Q f (m w).0 (m w).1 h k

bind_changes_ok_cases :
    {E A B : Type 0} (Q : World → Type 0) (f : A → M E B) (r : Outcome E A) (w : World) (a : A)
    → r ≡ ok a
    → Q (f a w).1
    → Q (continue r f w).1
bind_changes_ok_cases Q f r w a e h = rw e h

pub bind_changes_ok :
    {E A B : Type 0} (Q : World → Type 0) (m : M E A) (f : A → M E B) (w : World) (a : A)
    → (m w).0 ≡ ok a
    → Q (f a (m w).1).1
    → Q ((m >>= f) w).1
unfolding ◌>>=◌
bind_changes_ok Q m f w a e h = bind_changes_ok_cases Q f (m w).0 (m w).1 a e h
