-- ===== src/Node/World.antt =====
-- What the node's code runs in: its database, its shared sync manager and its connections, and the
-- environment that answers it.
pub mod Ensures
pub mod Quiet
pub mod Succeeds
use da_concept.Base.{
  ℕ, ◌+◌, String, Bool, true, false, Option, none, some, List, [], ◌∷◌, ◌⊎◌, inl, inr,
  if◌then◌else◌,
}
use da_concept.Base.Int.{ℤ}
use da_concept.Base.Outcome.{Outcome, ok, err, panic}
use da_concept.Node.Proto.{RequestType, SyncResponse}
use da_concept.Node.Database.{Db}
use da_concept.Node.Database.Row.{Key}
use da_concept.Node.Manager.{SyncManager, PeerClient}

-- `tonic::Status`: the two that the node makes, or one that came from elsewhere.
pub data RpcStatus : Type 0 where
  internal remote : RpcStatus
  invalid_argument : String → RpcStatus

-- da-node/src/errors.rs. The errors of other crates are kept without their contents.
pub data DaNodeError : Type 0 where
  read_env_var io config grpc_client database_connection addr_parse subtask : DaNodeError
  grpc : RpcStatus → DaNodeError
  client_not_connected invalid_response : String → DaNodeError

-- The code that is not the node's. What varies from one call to the next takes the number of the
-- interaction: whether the n-th one meets a database failure, what time it is then, whether a
-- connection can be made, and what a peer replies (`none`: a `Status` came back).
pub record Env : Type 0 where
  pub db_fault : ℕ → Bool
  pub now : ℕ → ℕ
  pub connects : ℕ → String → Bool
  pub reply : ℕ → String → Option RequestType → Option SyncResponse
  -- `Sha256` and its lower hexadecimal form.
  pub sha256_hex : List ℕ → String
  -- The crate uuid.
  pub uuid_to_string : ℕ → String
  pub parse_uuid : String → Option ℕ
  -- How sqlx binds a UUID, and decodes a UUID or a text from a column.
  pub bind_uuid : ℕ → Key
  pub decode_uuid : Key → Option ℕ
  pub decode_string : Key → Option String
  -- How sqlx and SQLite return a count as an i32, and a sum as an i64 (`none`: it is out of range).
  pub decode_i32 : ℕ → Option ℕ
  pub decode_i64 : ℤ → Option ℤ
  -- The crate chrono.
  pub to_rfc3339 : ℕ → String
  pub parse_from_rfc3339 : String → Option ℕ

-- `ticks` counts the interactions. `connected` has the addresses of the cells that hold a client,
-- `cells` is the next address. `sent` records the requests that were sent, each with the address of
-- its peer.
pub record World : Type 0 where
  pub db : Db
  pub manager : SyncManager
  pub connected : List ℕ
  pub cells : ℕ
  pub ticks : ℕ
  pub sent : List (String × RequestType)

abbrev pub M {ℓ} : Type 0 → Type ℓ → Type ℓ
M E A = World → Outcome E A × World

module _ {E : Type 0} where
  unfoldable pub pure {ℓ} : {A : Type ℓ} → A → M E A
  pure a w = (ok a, w)

  unfoldable pub throw {ℓ} : {A : Type ℓ} → E → M E A
  throw e w = (err e, w)

  abbrev pub continue {ℓ κ} : {A : Type ℓ} {B : Type κ} → Outcome E A → (A → M E B) → M E B
  continue (ok a) f w = f a w
  continue (err e) f w = (err e, w)
  continue panic f w = (panic, w)

  infixl 5 ◌>>=◌ ◌>>◌
  unfoldable pub ◌>>=◌ {ℓ κ} : {A : Type ℓ} {B : Type κ} → M E A → (A → M E B) → M E B
  ◌>>=◌ m f w = let (r, w') = m w in continue r f w'

  abbrev pub ◌>>◌ {ℓ} : {B : Type ℓ} → M E (Unit {0}) → M E B → M E B
  m >> k = m >>= λ _. k

  -- What stands in the world.
  unfoldable pub gets {ℓ} : {A : Type ℓ} → (World → A) → M E A
  gets f w = (ok (f w), w)

  -- A change of the manager under the write lock.
  unfoldable pub modify_manager : (SyncManager → SyncManager) → M E (Unit {0})
  modify_manager f w = (ok tt, record w { manager = f w.manager })

  -- A call whose errors the caller handles: the value, or the error.
  abbrev pub caught {ℓ} : {F : Type 0} {A : Type ℓ} → Outcome E A → Outcome F (A ⊎ E)
  caught (ok a) = ok (inl a)
  caught (err e) = ok (inr e)
  caught panic = panic

  unfoldable pub attempt {ℓ} : {F : Type 0} {A : Type ℓ} → M E A → M F (A ⊎ E)
  attempt m w = let (r, w') = m w in (caught r, w')

  -- A task that is joined: how it ended.
  unfoldable pub joined {ℓ} : {F : Type 0} {A : Type ℓ} → M E A → M F (Outcome E A)
  joined m w = let (r, w') = m w in (ok r, w')

  -- `?` with the `From` conversion of the error.
  abbrev pub converted {ℓ} : {F : Type 0} {A : Type ℓ} → (E → F) → Outcome E A → Outcome F A
  converted f (ok a) = ok a
  converted f (err e) = err (f e)
  converted f panic = panic

  unfoldable pub map_err {ℓ} : {F : Type 0} {A : Type ℓ} → (E → F) → M E A → M F A
  map_err f m w = let (r, w') = m w in (converted f r, w')

abbrev pub tick : World → World
tick w = record w { ticks = w.ticks + 1 }

abbrev pub written {ℓ} :
    {E : Type 0} {A : Type ℓ} → E → Option (A × Db) → World → Outcome E A × World
written e none w = (err e, w)
written e (some (a, db)) w = (ok a, record w { db = db })

module _ (env : Env) where
  -- `Utc::now()`
  unfoldable pub utc_now : {E : Type 0} → M E ℕ
  utc_now w = (ok (env.now w.ticks), tick w)

  -- A statement: it fails as a whole, or it does what `run` does at the time of the database.
  unfoldable pub query {ℓ} : {E : Type 0} {A : Type ℓ} → E → (ℕ → Db → Option (A × Db)) → M E A
  query e run w =
      if env.db_fault w.ticks
      then (err e, tick w)
      else written e (run (env.now w.ticks) w.db) (tick w)
