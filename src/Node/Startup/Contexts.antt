-- ===== src/Node/Startup/Contexts.antt =====
-- The context that `graphql_handler` of da-node/src/startup.rs makes for a request.
use da_concept.Base.{◌≡◌, refl, String, Option, none, some}
use da_concept.Base.Outcome.{ok}
use da_concept.Node.World.{Env, World, DaNodeError, pure, ◌>>=◌}
use da_concept.Node.World.Quiet.{Quiet-query}
use da_concept.Node.World.Succeeds.{
  Succeeds, Succeeds-pure, Succeeds-utc_now, Succeeds-attempt, Succeeds-bind,
}
use da_concept.Node.UserApi.Types.{User, Claims}
use da_concept.Node.UserApi.Web.{Web}
use da_concept.Node.UserApi.Context
use da_concept.Node.UserApi.Context.{
  Context, Handle, handle, with_user, pool, user_loader, blob_loader, sync_manager,
}
use da_concept.Node.Startup.{bearer, user_of_claims, user_of_token, current_user, graphql_context}

-- A context of which no resolver finds a part missing.
pub record IsReady (context : Context) : Type 0 where
  pub has_pool : pool {E = DaNodeError} context ≡ ok handle
  pub has_user_loader : (l : Context.Loader) × (user_loader {E = DaNodeError} context ≡ ok l)
  pub has_blob_loader : (l : Context.Loader) × (blob_loader {E = DaNodeError} context ≡ ok l)
  pub has_sync_manager : sync_manager {E = DaNodeError} context ≡ ok handle

module _ (env : Env) (web : Web) (jwt_secret : String) where
  Succeeds-claims : (claims : Option Claims) → Succeeds (user_of_claims env web jwt_secret claims)
  unfolding user_of_claims
  Succeeds-claims none = Succeeds-pure none
  Succeeds-claims (some claims) =
      Succeeds-bind _ _ (Succeeds-attempt _ (Quiet-query env _ _)) λ answer. Succeeds-pure _

  Succeeds-token : (token : Option String) → Succeeds (user_of_token env web jwt_secret token)
  unfolding user_of_token
  Succeeds-token none = Succeeds-pure none
  Succeeds-token (some token) = Succeeds-bind _ _ (Succeeds-utc_now env) λ now. Succeeds-claims _

  made : Option User → Context
  made user =
      let context = Context.new handle jwt_secret handle in
      elim user [ none ↦ context | some user ↦ with_user context user ]

  made-IsReady : (user : Option User) → IsReady (made user) × ((made user).current_user ≡ user)
  unfolding made Context.new with_user pool user_loader blob_loader sync_manager
  made-IsReady none = (
    record {
      has_pool = refl;
      has_user_loader = (_, refl);
      has_blob_loader = (_, refl);
      has_sync_manager = refl;
    },
    refl,
  )
  made-IsReady (some user) = (
    record {
      has_pool = refl;
      has_user_loader = (_, refl);
      has_blob_loader = (_, refl);
      has_sync_manager = refl;
    },
    refl,
  )

  -- Whatever the header and the state, a request is given a context: no part that a resolver expects is
  -- missing in it, and its user is the one that the header is taken for.
  pub graphql_context-IsReady :
      (authorization : Option String) (w : World)
      → (context : Context) × ((graphql_context env web jwt_secret authorization w).0 ≡ ok context)
        × IsReady context
        × ((current_user env web jwt_secret authorization w).0 ≡ ok context.current_user)
  unfolding graphql_context current_user made ◌>>=◌ pure
  graphql_context-IsReady authorization w =
      let (user, e) = (Succeeds-token (bearer authorization)).returns w in
      let (ready, same) = made-IsReady user in (made user, rw e refl, ready, rw same e)
