-- ===== src/Node/UserApi/Types.antt =====
-- da-node/src/user_api/types.rs, with the errors of the API. Texts that the crate `crypto` reads or
-- makes are their bytes.
use da_concept.Base.{ℕ, String, Text, Option, none, some}
use da_concept.Base.Int.{ℤ}
use da_concept.Crypto.Crates.{Crates}
use da_concept.Node.Database.Row.{UserRow}
use da_concept.Node.World.{Env}
use da_concept.Node.Types.{Blob}

pub record User : Type 0 where
  pub id : ℕ
  pub username : String
  pub password_hash : String
  pub private_key : Text
  pub email : Option String
  pub created_at : ℕ
  pub updated_at : ℕ

pub record LoginInput : Type 0 where
  pub username : String
  pub password : String

pub record NewUserInput : Type 0 where
  pub username : String
  pub password : String
  pub email : Option String

pub record BlobInput : Type 0 where
  pub content : Text
  pub metadata : Option String
  pub content_type : Option String

pub record Claims : Type 0 where
  pub sub : ℕ
  pub exp : ℕ
  pub iat : ℕ

pub record UserSchema : Type 0 where
  pub id : ℕ
  pub username : String
  pub private_key : Text
  pub email : Option String

pub record AuthPayload : Type 0 where
  pub token : String
  pub user : UserSchema

pub record BlobSchema : Type 0 where
  pub id : ℕ
  pub content : Text
  pub metadata : Option String
  pub content_type : Option String
  pub size : ℤ
  pub hash : Option String
  pub owner_id : ℕ
  pub created_at : ℕ

-- The errors of the resolvers; those of a statement or of another crate are kept without their
-- contents.
pub data FieldError : Type 0 where
  authentication_required blob_not_found user_not_found invalid_password no_permission : FieldError
  database failed_to_sync crypto_failed hash_failed token_failed : FieldError

-- `UserSchema::new`
unfoldable pub new_user_schema : User → UserSchema
new_user_schema user = record {
  id = user.id;
  username = user.username;
  private_key = user.private_key;
  email = user.email;
}

-- `BlobSchema::from`
unfoldable pub blob_schema_from : Blob → Text → BlobSchema
blob_schema_from blob content = record {
  id = blob.id;
  content = content;
  metadata = blob.metadata;
  content_type = blob.content_type;
  size = blob.size;
  hash = blob.hash;
  owner_id = blob.owner_id;
  created_at = blob.created_at;
}

-- `BlobSchema::new`
unfoldable pub new_blob_schema : Crates → Blob → BlobSchema
new_blob_schema crates blob = record {
  id = blob.id;
  content = crates.encode blob.content;
  metadata = blob.metadata;
  content_type = blob.content_type;
  size = blob.size;
  hash = blob.hash;
  owner_id = blob.owner_id;
  created_at = blob.created_at;
}

module _ (env : Env) where
  abbrev user_of : UserRow → Option ℕ → Option User
  user_of row none = none
  user_of row (some id) = some (record {
    id = id;
    username = row.username;
    password_hash = row.password_hash;
    private_key = row.private_key;
    email = row.email;
    created_at = row.created_at;
    updated_at = row.updated_at;
  })

  -- `FromRow`; `none` is a decoding error.
  unfoldable pub decode_user : UserRow → Option User
  decode_user row = user_of row (env.decode_uuid row.id)
