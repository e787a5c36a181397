-- ===== src/Node/Startup.antt =====
-- `graphql_handler` of da-node/src/startup.rs, up to the execution of the request by juniper: who
-- the context's user is.
pub mod Host
pub mod Application
pub mod P2p
pub mod Contexts
use Prim.Native.Char.{code}
use da_concept.Base.{String, Option, none, some, ◌⊎◌, inl, inr, ◌==◌, if◌then◌else◌}
use da_concept.Node.Database.{Db}
use da_concept.Node.Database.Row.{UserRow}
use da_concept.Node.Database.Users.{select_user}
use da_concept.Node.World.{
  Env, M, DaNodeError, database_connection, pure, attempt, utc_now, query, ◌>>=◌,
}
use da_concept.Node.UserApi.Types.{User, Claims, decode_user}
use da_concept.Node.UserApi.Context
use da_concept.Node.UserApi.Context.{Context, handle, with_user}
use da_concept.Node.UserApi.Web.{Web}

-- `str::strip_prefix`
unfoldable pub strip_prefix : String → String → Option String
strip_prefix String.[] text = some text
strip_prefix (String.◌∷◌ c prefix) String.[] = none
strip_prefix (String.◌∷◌ c prefix) (String.◌∷◌ d text) =
    let rest = strip_prefix prefix text in if code c == code d then rest else none

-- The token of the header `Authorization`, whose text is given if it is there and is a text.
unfoldable pub bearer : Option String → Option String
unfolding strip_prefix
bearer none = none
bearer (some header) = strip_prefix "Bearer " header

module _ (env : Env) (web : Web) (jwt_secret : String) where
  abbrev with_db : Db → Option User → Option (User × Db)
  with_db db none = none
  with_db db (some user) = some (user, db)

  -- `fetch_one` fails where there is no row.
  abbrev fetched : Db → Option UserRow → Option (User × Db)
  fetched db none = none
  fetched db (some row) = with_db db (decode_user env row)

  abbrev unless_failed : User ⊎ DaNodeError → Option User
  unless_failed (inl user) = some user
  unless_failed (inr e) = none

  unfoldable pub user_of_claims : Option Claims → M DaNodeError (Option User)
  user_of_claims none = pure none
  user_of_claims (some claims) = do
    answer ← attempt {F = DaNodeError} (
        query env database_connection
          (λ clock db. fetched db (select_user (env.bind_uuid claims.sub) db.users)))
    pure (unless_failed answer)

  -- The validation of a token reads the clock.
  unfoldable pub user_of_token : Option String → M DaNodeError (Option User)
  unfolding user_of_claims
  user_of_token none = pure none
  user_of_token (some token) = do
    now ← utc_now env
    user_of_claims (web.decode_jwt now jwt_secret token)

  unfoldable pub current_user : Option String → M DaNodeError (Option User)
  unfolding bearer user_of_token
  current_user authorization = user_of_token (bearer authorization)

  -- The context in which a request is executed.
  unfoldable pub graphql_context : Option String → M DaNodeError Context
  unfolding current_user
  graphql_context authorization = do
    user ← current_user authorization
    let context = Context.new handle jwt_secret handle
    pure (elim user [ none ↦ context | some user ↦ with_user context user ])
