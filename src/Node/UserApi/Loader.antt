-- ===== src/Node/UserApi/Loader.antt =====
-- da-node/src/user_api/data_loader.rs: the batches behind the cached loaders. A map is an
-- association list. The cache and the gathering of the ids into batches are the crate dataloader's.
pub mod Answers
pub mod Users
use da_concept.Base.{
  ℕ, Bool, true, false, Option, none, some, List, [], ◌∷◌, map, ◌⊎◌, inl, inr, ◌==◌, if◌then◌else◌,
}
use da_concept.Node.Database.{Db}
use da_concept.Node.Database.Row.{UserRow, BlobRow}
use da_concept.Node.Database.Blobs.{select_among}
use da_concept.Node.Database.Users.{select_users}
use da_concept.Node.World.{
  Env, World, M, DaNodeError, database_connection, pure, attempt, query, ◌>>=◌,
}
use da_concept.Node.Types.{Blob, decode_all}
use da_concept.Node.UserApi.Types.{User, decode_user}

-- The error for one id: nothing has it, or the statement failed.
pub data LoadError : Type 0 where
  no_such : ℕ → LoadError
  database_error : LoadError

abbrev pub Entries : Type 0 → Type 0
Entries A = List (ℕ × (A ⊎ LoadError))

module _ {A : Type 0} where
  -- `HashMap::insert`
  abbrev pub insert_entry : ℕ → A ⊎ LoadError → Entries A → Entries A
  insert_entry id r [] = (id, r) ∷ []
  insert_entry id r ((j, s) ∷ entries) =
      let rest = insert_entry id r entries in if j == id then (j, r) ∷ entries else (j, s) ∷ rest

  -- `HashMap::get`
  abbrev pub get_entry : ℕ → Entries A → Option (A ⊎ LoadError)
  get_entry id [] = none
  get_entry id ((j, s) ∷ entries) = if j == id then some s else get_entry id entries

  -- The loop over what was found.
  unfoldable pub insert_found : (A → ℕ) → List A → Entries A → Entries A
  insert_found id_of [] entries = entries
  insert_found id_of (x ∷ xs) entries =
      insert_found id_of xs (insert_entry (id_of x) (inl x) entries)

  abbrev pub insert_missing : ℕ → Option (A ⊎ LoadError) → Entries A → Entries A
  insert_missing id (some r) entries = entries
  insert_missing id none entries = insert_entry id (inr (no_such id)) entries

  -- The loop over the ids that were asked for.
  unfoldable pub fill_missing : List ℕ → Entries A → Entries A
  fill_missing [] entries = entries
  fill_missing (id ∷ ids) entries =
      fill_missing ids (insert_missing id (get_entry id entries) entries)

  -- The map that a batch returns, from what the statement returned.
  unfoldable pub answers : (A → ℕ) → List ℕ → List A ⊎ DaNodeError → Entries A
  unfolding insert_found fill_missing
  answers id_of ids (inl found) = fill_missing ids (insert_found id_of found [])
  answers id_of ids (inr e) = map (λ id. (id, inr database_error)) ids

module _ (env : Env) where
  abbrev pub cons_user : Option User → Option (List User) → Option (List User)
  cons_user (some user) (some users) = some (user ∷ users)
  cons_user _ _ = none

  -- `fetch_all` fails if any row does.
  unfoldable pub decode_users : List UserRow → Option (List User)
  decode_users [] = some []
  decode_users (row ∷ rows) = cons_user (decode_user env row) (decode_users rows)

  abbrev fetched : {A : Type 0} → Db → Option (List A) → Option (List A × Db)
  fetched db none = none
  fetched db (some found) = some (found, db)

  -- `UserBatcher::load`
  unfoldable pub load_users : List ℕ → M DaNodeError (Entries User)
  unfolding answers
  load_users [] = pure []
  load_users (id ∷ ids) = do
    found ← attempt {F = DaNodeError} (
        query env database_connection (λ clock db.
          fetched db (decode_users (select_users (map env.bind_uuid (id ∷ ids)) db.users))))
    pure (answers (λ user. user.id) (id ∷ ids) found)

  -- `BlobBatcher::load`
  unfoldable pub load_blobs : List ℕ → M DaNodeError (Entries Blob)
  unfolding answers
  load_blobs [] = pure []
  load_blobs (id ∷ ids) = do
    found ← attempt {F = DaNodeError} (
        query env database_connection (λ clock db.
          fetched db (decode_all env (select_among (map env.bind_uuid (id ∷ ids)) db.blobs))))
    pure (answers (λ blob. blob.id) (id ∷ ids) found)
