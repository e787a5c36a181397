-- ===== src/Node/UserApi/Mutation.antt =====
-- `Mutation` of da-node/src/user_api/mod.rs.
use mathlib.Core.Option.{get_or}
use mathlib.Core.Option
use da_concept.Base.{
  ℕ, String, Text, Bool, true, false, not, ◌&&◌, Option, none, some, List, [], ◌∷◌, ◌++◌, length,
  ◌==◌, if◌then◌else◌,
}
use da_concept.Base.Int.{pos}
use da_concept.Crypto.Crates.{Crates}
use da_concept.Crypto.PrivateKey
use da_concept.Crypto.PublicKey
use da_concept.Crypto.Elgamal
use da_concept.Node.Database.{Db}
use da_concept.Node.Database.Row.{Key, key_eq, BlobRow, pending, completed, StatusRow, UserRow}
use da_concept.Node.Database.Blobs.{select_live, mark_deleted, insert}
use da_concept.Node.Database.Statuses.{has_row}
use da_concept.Node.Database.Users.{select_name, insert_user}
use da_concept.Node.World.{Env, M, pure, throw, map_err, utc_now, query, ◌>>=◌, ◌>>◌}
use da_concept.Node.Types.{Blob, decode}
use da_concept.Node.Sync.{sync_blob}
use da_concept.Node.UserApi.Types.{
  User, LoginInput, NewUserInput, BlobInput, Claims, AuthPayload, BlobSchema, FieldError,
  authentication_required, blob_not_found, user_not_found, invalid_password, no_permission,
  database, failed_to_sync, hash_failed, token_failed, new_user_schema, blob_schema_from,
  decode_user,
}
use da_concept.Node.UserApi.Web.{
  Web, get_secure_random_bytes, expected, lifted, drawing, fresh_uuid,
}

-- SELECT peer_node_id FROM sync_status WHERE blob_id = ? AND sync_status = 'completed'
unfoldable pub completed_peers : Key → List StatusRow → List String
completed_peers blob [] = []
completed_peers blob (row ∷ rows) =
    let rest = completed_peers blob rows in
    if key_eq row.blob_id blob && (elim row.sync_status [ completed ↦ true | _ ↦ false ])
    then row.peer_node_id ∷ rest
    else rest

-- The row that is inserted for a blob and a peer; the other columns have their defaults.
abbrev pub pending_row : ℕ → Key → String → StatusRow
pending_row clock blob peer = record {
  blob_id = blob;
  peer_node_id = peer;
  sync_status = pending;
  last_sync_attempt = none;
  last_successful_sync = none;
  retry_count = 0;
  created_at = clock;
  updated_at = clock;
}

unfoldable pub insert_pairs : ℕ → Key → List String → List StatusRow → Option (List StatusRow)
insert_pairs clock blob [] rows = some rows
insert_pairs clock blob (peer ∷ peers) rows =
    let rest = insert_pairs clock blob peers (rows ++ pending_row clock blob peer ∷ []) in
    if has_row blob peer rows then none else rest

-- INSERT INTO sync_status … SELECT … FROM sync_status WHERE …, which fails as a whole when a pair
-- is there.
unfoldable pub insert_selected : ℕ → Key → List StatusRow → Option (List StatusRow)
unfolding completed_peers insert_pairs
insert_selected clock blob rows = insert_pairs clock blob (completed_peers blob rows) rows

-- The results of INSERT … RETURNING *.
abbrev pub user_inserted : Db → UserRow → Option (List UserRow) → Option (UserRow × Db)
user_inserted db row none = none
user_inserted db row (some rows) = some (row, record db { users = rows })

abbrev pub blob_inserted : Db → BlobRow → Option (List BlobRow) → Option (BlobRow × Db)
blob_inserted db row none = none
blob_inserted db row (some rows) = some (row, record db { blobs = rows })

module _ (env : Env) (web : Web) (crates : Crates) (jwt_secret : String) where
  -- The claims that `register` and `login` make out, and their token.
  abbrev pub claims_of : ℕ → ℕ → Claims
  claims_of id now = record {
    sub = id;
    exp = web.timestamp (web.add_days now 7);
    iat = web.timestamp now;
  }

  unfoldable pub authenticated : User → M FieldError AuthPayload
  authenticated user = do
    now ← utc_now env
    token ← expected token_failed (web.encode_jwt jwt_secret (claims_of user.id now))
    pure (record { token = token; user = new_user_schema user })

  abbrev pub user_row : ℕ → ℕ → NewUserInput → String → Text → UserRow
  user_row clock id input password_hash private_key = record {
    id = env.bind_uuid id;
    username = input.username;
    password_hash = password_hash;
    private_key = private_key;
    email = input.email;
    created_at = clock;
    updated_at = clock;
  }

  unfoldable pub register : NewUserInput → M FieldError AuthPayload
  unfolding authenticated
  register input = do
    salt ← drawing crates (get_secure_random_bytes crates)
    password_hash ← expected hash_failed (web.hash_password input.password salt)
    private_key ← drawing crates (PrivateKey.generate crates)
    id ← fresh_uuid web
    row ← query env database (λ clock db.
        let row =
          user_row clock id input password_hash
            (PrivateKey.get_encoded_private_key crates private_key) in
        user_inserted db row (insert_user row db.users))
    user ← expected database (decode_user env row)
    authenticated user

  abbrev found_user : Db → Option UserRow → Option (Option User × Db)
  found_user db none = some (none, db)
  found_user db (some row) = Option.map (λ user. (some user, db)) (decode_user env row)

  unfoldable pub login : LoginInput → M FieldError AuthPayload
  unfolding authenticated
  login input = do
    found ← query env database (λ clock db. found_user db (select_name input.username db.users))
    user ← expected user_not_found found
    if not (web.is_hash user.password_hash)
        then throw hash_failed
        else if not (web.verify_password input.password user.password_hash)
        then throw invalid_password
        else authenticated user

  abbrev pub blob_row : ℕ → ℕ → User → BlobInput → Text → List ℕ → BlobRow
  blob_row clock id current_user input related_pubkey content = record {
    id = env.bind_uuid id;
    content = content;
    metadata = input.metadata;
    content_type = input.content_type;
    size = pos (length content);
    hash = some (env.sha256_hex content);
    owner_id = env.bind_uuid current_user.id;
    public_key = related_pubkey;
    created_at = clock;
    updated_at = clock;
    deleted_at = none;
  }

  unfoldable pub add_blob : Option User → BlobInput → M FieldError BlobSchema
  add_blob none blob_input = throw authentication_required
  add_blob (some current_user) blob_input = do
    private_key ← lifted crates (PrivateKey.try_from crates current_user.private_key)
    let related_pubkey = PublicKey.get_encoded_public_key crates private_key.public_key
    content ← drawing crates (Elgamal.encrypt crates blob_input.content private_key)
    id ← fresh_uuid web
    row ← query env database (λ clock db.
        let row = blob_row clock id current_user blob_input related_pubkey content in
        blob_inserted db row (insert row db.blobs))
    blob ← expected database (decode env row)
    map_err (λ e. failed_to_sync) (sync_blob env blob.id (get_or blob.hash ""))
    pure (blob_schema_from blob blob_input.content)

module _ (env : Env) where
  abbrev found_blob : Db → Option BlobRow → Option (Option Blob × Db)
  found_blob db none = some (none, db)
  found_blob db (some row) = Option.map (λ blob. (some blob, db)) (decode env row)

  abbrev pub statuses_inserted : Db → Option (List StatusRow) → Option (Unit {0} × Db)
  statuses_inserted db none = none
  statuses_inserted db (some rows) = some (tt, record db { sync_status = rows })

  unfoldable pub delete_blob : Option User → ℕ → M FieldError Bool
  delete_blob none blob_id = throw authentication_required
  delete_blob (some current_user) blob_id = do
    found ←
        query env database
          (λ clock db. found_blob db (select_live (env.bind_uuid blob_id) db.blobs))
    elim found [
      | none ↦ throw blob_not_found
      | some blob ↦ if not (blob.owner_id == current_user.id) then throw no_permission else (do
        now ← utc_now env
        query env database (λ clock db.
            some
              (tt, record db { blobs = mark_deleted now clock (env.bind_uuid blob_id) db.blobs }))
        map_err (λ e. failed_to_sync) (sync_blob env blob.id (get_or blob.hash ""))
        query env database (λ clock db.
            statuses_inserted db (insert_selected clock (env.bind_uuid blob_id) db.sync_status))
        pure true)
    ]
