-- ===== src/Node/UserApi/Content.antt =====
-- `add_blob` of da-node/src/user_api/mod.rs, and what `UserSchema::blobs` of types.rs shows of it.
pub mod Rows
use da_concept.Base.{
  ℕ, ◌+◌, ◌^◌, ◌≤◌, ◌<◌, ◌≡◌, refl, ap, String, Text, true, false, Option, none, some, List, [],
  ◌∷◌, ◌++◌, All, length, text_eq_iff, arith,
}
use da_concept.Base.Int.{pos}
use da_concept.Base.Outcome.{ok, bind-ok}
use da_concept.Crypto.Crates.{Crates, IsLawful, IsAvailable, IsByte}
use da_concept.Crypto.Types.{PrivateKey}
use da_concept.Crypto.Std.{is_utf8}
use da_concept.Crypto.PrivateKey
use da_concept.Crypto.PublicKey
use da_concept.Crypto.KeyPair.{IsKey}
use da_concept.Crypto.Elgamal
use da_concept.Crypto.Elgamal.RoundTrip.{decrypt-encrypt_nul_free}
use da_concept.Node.Database.Row.{Key, key_eq_iff, BlobRow}
use da_concept.Node.Database.Blobs.{has_id, insert, select_owned}
use da_concept.Node.Manager.{queue_blob_fetch}
use da_concept.Node.World.{Env, World, pure, query, map_err, modify_manager, ◌>>=◌}
use da_concept.Node.Types.{Blob, decode, decode_all, consed}
use da_concept.Node.Sync.{sync_blob}
use da_concept.Node.UserApi.Types.{User, BlobInput, BlobSchema, new_user_schema, blob_schema_from}
use da_concept.Node.UserApi.Web.{Web, IsSound, drawing, fresh_uuid}
use da_concept.Node.UserApi.Mutation.{blob_row, add_blob}
use da_concept.Node.UserApi.Opening.{shown, opened}
use da_concept.Node.UserApi.Query.{user_blobs}
use Rows.{insert_fresh, select_owned-append, snoc, decode_all-append, opened-append}

-- The bytes of a UTF-8 text without NUL, of at most 32 MiB: what it is encrypted to is then below
-- SQLite's limit for a value.
pub record IsPlain (content : Text) : Type 0 where
  pub bytes : All IsByte content
  pub short : length content ≤ 2 ^ 25
  pub utf8 : is_utf8 content ≡ true
  pub nul_free : All (λ b. 0 < b) content

module _ (env : Env) (web : Web) where
  -- A world in which the database answers and no new UUID is the id of a blob.
  pub record IsUp (w : World) : Type 0 where
    pub answers : (n : ℕ) → env.db_fault n ≡ false
    pub fresh : (n : ℕ) → has_id (env.bind_uuid (web.new_v4 n)) w.db.blobs ≡ false

module _ (env : Env) (web : Web) (crates : Crates) (sound : IsSound env web) where
  -- The blob that is stored with an id.
  abbrev pub stored_blob : ℕ → ℕ → User → BlobInput → Text → List ℕ → Blob
  stored_blob clock id user input pubkey content = record {
    id = id;
    content = content;
    metadata = input.metadata;
    content_type = input.content_type;
    size = pos (length content);
    hash = some (env.sha256_hex content);
    owner_id = user.id;
    public_key = pubkey;
    created_at = clock;
    updated_at = clock;
    deleted_at = none;
  }

  pub decode-blob_row :
      (secret : String) (clock id : ℕ) (user : User) (input : BlobInput) (pubkey : Text)
      (content : List ℕ)
      → decode env (blob_row env web crates secret clock id user input pubkey content)
        ≡ some (stored_blob clock id user input pubkey content)
  unfolding decode
  decode-blob_row secret clock id user input pubkey content =
      rw (sound.decode-bind id, sound.decode-bind user.id) refl

  module _ (law : IsLawful crates) (available : IsAvailable crates) (secret : String) (w : World)
      (up : IsUp env web w) (user : User) (key : PrivateKey) (valid : IsKey key)
      (import : PrivateKey.try_from crates user.private_key ≡ ok key) (input : BlobInput)
      (plain : IsPlain input.content) where
    abbrev pub pubkey : Text
    pubkey = PublicKey.get_encoded_public_key crates key.public_key

    -- What the mutation answers, and the world that it leaves.
    pub add_blob_lem :
        (clock id : ℕ) × (stored : List ℕ) × (ticks : ℕ) × (Elgamal.decrypt crates stored key
          ≡ ok input.content)
        × (has_id (env.bind_uuid id) w.db.blobs ≡ false)
        × (add_blob env web crates secret (some user) input w ≡ (
          ok (blob_schema_from (stored_blob clock id user input pubkey stored) input.content),
          record w {
            db = record w.db {
              blobs =
                  w.db.blobs
                  ++ blob_row env web crates secret clock id user input pubkey stored ∷ [];
            };
            manager = queue_blob_fetch w.manager id (env.sha256_hex stored);
            ticks = ticks;
          },
        ))
    unfolding add_blob drawing fresh_uuid query map_err sync_blob modify_manager ◌>>=◌ pure
    add_blob_lem =
        let (stored, rng, e, d) =
          decrypt-encrypt_nul_free crates law available key valid input.content w.ticks plain.bytes
            (omega (arith, plain.short)) plain.utf8 plain.nul_free in
        let clock = env.now (rng + 1) in
        let id = web.new_v4 rng in
        let row = blob_row env web crates secret clock id user input pubkey stored in
        (
          clock,
          id,
          stored,
          rng + 1 + 1,
          d,
          up.fresh rng,
          rw
              (
                import,
                e,
                up.answers (rng + 1),
                insert_fresh row w.db.blobs (up.fresh rng),
                decode-blob_row secret clock id user input pubkey stored,
              )
              refl,
        )

    -- With lawful crates, random bytes at hand, sound services and a user whose stored key imports to
    -- a valid key,
    -- while the database answers and new UUIDs are fresh: a blob of UTF-8 text without NUL bytes, of
    -- at most 32 MiB, is added and answered with its text, and the user who could list the earlier blobs then lists
    -- them and the new one, with its text.
    pub user_blobs-add_blob :
        (olds : List Blob) (seen : List BlobSchema)
        → decode_all env (select_owned (env.bind_uuid user.id) w.db.blobs) ≡ some olds
        → opened crates key pubkey olds ≡ ok seen
        → (schema : BlobSchema) × (schema.content ≡ input.content)
          × ((add_blob env web crates secret (some user) input w).0 ≡ ok schema)
          × ((user_blobs env crates
                (some user)
                (new_user_schema user)
                (add_blob env web crates secret (some user) input w).1).0
              ≡ ok (seen ++ schema ∷ []))
    unfolding user_blobs new_user_schema query shown ◌>>=◌ blob_schema_from
    user_blobs-add_blob olds seen listed shows =
        let (clock, id, stored, ticks, d, fresh, e) = add_blob_lem in
        let row = blob_row env web crates secret clock id user input pubkey stored in
        let new = stored_blob clock id user input pubkey stored in
        let owned = select_owned-append (env.bind_uuid user.id) w.db.blobs row refl refl in
        let decodes : decode_all env (select_owned (env.bind_uuid user.id) (w.db.blobs ++ row ∷ []))
            ≡ some (olds ++ new ∷ []) =
          rw
            (
              owned,
              decode_all-append env (select_owned (env.bind_uuid user.id) w.db.blobs) row,
              listed,
              decode-blob_row secret clock id user input pubkey stored,
            )
            refl in
        let opens : shown crates key pubkey new ≡ ok input.content =
          rw ((text_eq_iff pubkey pubkey).1 refl) d in
        (
          blob_schema_from new input.content,
          refl,
          rw e refl,
          rw
              (
                e,
                up.answers ticks,
                decodes,
                import,
                opened-append crates key pubkey olds new seen input.content shows opens,
              )
              refl,
        )
