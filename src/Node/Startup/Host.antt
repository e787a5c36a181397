-- ===== src/Node/Startup/Host.antt =====
-- What da-node/src/startup.rs calls and does not implement, and `get_connection_pool`, which calls
-- the most of it.
use da_concept.Base.{ℕ, String, Bool, Option, none, some, if◌then◌else◌}
use da_concept.Base.Outcome.{Outcome, ok, err, panic}
use da_concept.Node.Configuration.{DatabaseSettings, connection_string}
use da_concept.Node.World.{M, DaNodeError, pure, throw, ◌>>◌}

-- What tokio, sqlx, axum and tonic returned in the run.
pub record Host : Type 0 where
  -- Whether SQLite is reached under an address, and whether the migrations run.
  pub connects : String → Bool
  pub migrates : Bool
  -- A listener bound to an endpoint, and the port of a listener.
  pub bind : String → Option ℕ
  pub port : ℕ → Option ℕ
  -- Whether a server on a listener or a port ends without an error.
  pub serve_api : ℕ → Bool
  pub parse_socket_address : String → Option ℕ
  pub serve_grpc : ℕ → Bool

-- `?` on a result with another error.
abbrev pub lift : {E A : Type 0} → (E → DaNodeError) → Outcome E A → M DaNodeError A
lift f (ok a) = pure a
lift f (err e) = throw (f e)
lift f panic = λ w. (panic, w)

abbrev pub or_throw : {A : Type 0} → Option A → DaNodeError → M DaNodeError A
or_throw none e = throw e
or_throw (some a) e = pure a

-- `.expect(…)`
abbrev pub expect : Bool → M DaNodeError (Unit {0})
expect b = if b then pure tt else λ w. (panic, w)

-- The pool is the database of the world.
unfoldable pub get_connection_pool : Host → DatabaseSettings → M DaNodeError (Unit {0})
unfolding connection_string
get_connection_pool host database = do
  expect (host.connects (connection_string database))
  expect host.migrates
