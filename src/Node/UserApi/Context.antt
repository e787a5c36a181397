-- ===== src/Node/UserApi/Context.antt =====
-- da-node/src/user_api/context.rs: what a resolver is given. The pool, the loaders and the sync
-- manager work on the world around them; here it is whether they are there.
use da_concept.Base.{ℕ, String, Option, none, some}
use da_concept.Base.Outcome.{Outcome, unwrap}
use da_concept.Node.UserApi.Types.{User}

-- The pool and the shared manager, which the world holds.
pub data Handle : Type 0 where
  handle : Handle

-- A loader on the pool, `with_yield_count`.
pub record Loader : Type 0 where
  pub pool : Handle
  pub yield_count : ℕ

pub record Context : Type 0 where
  pub db : Option Handle
  pub current_user : Option User
  pub user_loader : Option Loader
  pub blob_loader : Option Loader
  pub sync_manager : Option Handle
  pub jwt_secret : String

unfoldable pub new : Handle → String → Handle → Context
new db jwt_secret p2p = record {
  db = some db;
  current_user = none;
  user_loader = some (record { pool = db; yield_count = 100 });
  blob_loader = some (record { pool = db; yield_count = 100 });
  sync_manager = some p2p;
  jwt_secret = jwt_secret;
}

unfoldable pub with_user : Context → User → Context
with_user self user = record self { current_user = some user }

-- The methods, each with its `expect`.
module _ {E : Type 0} where
  unfoldable pub pool : Context → Outcome E Handle
  pool self = unwrap self.db

  unfoldable pub user_loader : Context → Outcome E Loader
  user_loader self = unwrap self.user_loader

  unfoldable pub blob_loader : Context → Outcome E Loader
  blob_loader self = unwrap self.blob_loader

  unfoldable pub sync_manager : Context → Outcome E Handle
  sync_manager self = unwrap self.sync_manager
