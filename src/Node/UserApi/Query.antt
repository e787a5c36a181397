-- ===== src/Node/UserApi/Query.antt =====
-- `Query` of da-node/src/user_api/mod.rs, and the resolvers of `UserSchema` and `BlobSchema` in
-- types.rs that ask the database. What the cached loaders of the context return is an argument.
use da_concept.Base.{ℕ, String, Option, none, some, List, map}
use da_concept.Crypto.Crates.{Crates}
use da_concept.Crypto.PrivateKey
use da_concept.Crypto.PublicKey
use da_concept.Node.Database.{Db}
use da_concept.Node.Database.Blobs.{select_all, select_owned}
use da_concept.Node.World.{Env, M, pure, throw, query, ◌>>=◌}
use da_concept.Node.Types.{Blob, decode_all}
use da_concept.Node.UserApi.Types.{
  User, UserSchema, BlobSchema, FieldError, authentication_required, database, new_user_schema,
  new_blob_schema,
}
use da_concept.Node.UserApi.Web.{lifted}
use da_concept.Node.UserApi.Opening.{opened}

unfoldable pub api_version : String
api_version = "1.0"

unfoldable pub me : Option User → M FieldError (Option UserSchema)
me (some user) = pure (some (new_user_schema user))
me none = pure none

unfoldable pub user : (ℕ → M FieldError User) → ℕ → M FieldError UserSchema
user load id = do loaded ← load id; pure (new_user_schema loaded)

-- `BlobSchema::owner`
unfoldable pub owner : (ℕ → M FieldError User) → BlobSchema → M FieldError UserSchema
owner load self = do loaded ← load self.owner_id; pure (new_user_schema loaded)

module _ (crates : Crates) where
  unfoldable pub blob : (ℕ → M FieldError Blob) → ℕ → M FieldError BlobSchema
  blob load id = do loaded ← load id; pure (new_blob_schema crates loaded)

module _ (env : Env) (crates : Crates) where
  abbrev selected : Db → Option (List Blob) → Option (List Blob × Db)
  selected db none = none
  selected db (some blobs) = some (blobs, db)

  unfoldable pub blobs : M FieldError (List BlobSchema)
  blobs = do
    found ← query env database (λ clock db. selected db (decode_all env (select_all db.blobs)))
    pure (map (new_blob_schema crates) found)

  -- `UserSchema::blobs`
  unfoldable pub user_blobs : Option User → UserSchema → M FieldError (List BlobSchema)
  unfolding opened
  user_blobs none self = throw authentication_required
  user_blobs (some current_user) self = do
    found ←
        query env database
          (λ clock db. selected db (decode_all env (select_owned (env.bind_uuid self.id) db.blobs)))
    private_key ← lifted crates (PrivateKey.try_from crates current_user.private_key)
    let related_pubkey = PublicKey.get_encoded_public_key crates private_key.public_key
    lifted crates (opened crates private_key related_pubkey found)
