-- ===== src/Node/Sync/Statements.antt =====
-- The methods of `SyncManager` (da-node/src/node_api/sync.rs) that run a statement.
use mathlib.Core.Option.{get_or}
use da_concept.Base.{
  ℕ, String, Bool, true, false, not, ◌&&◌, Option, none, some, List, str_eq, if◌then◌else◌,
}
use da_concept.Node.Proto
use da_concept.Node.Proto.{BlobMetadata}
use da_concept.Node.Database.{Db}
use da_concept.Node.Database.Row.{text, BlobRow, pending, failed, StatusRow}
use da_concept.Node.Database.Blobs.{exists_live, insert}
use da_concept.Node.Database.Statuses.{
  update, attempted, succeeded, upsert_pending, pending_peers, to_share,
}
use da_concept.Node.Types.{Blob, decode_all}
use da_concept.Node.World.{
  Env, M, RpcStatus, internal, DaNodeError, database_connection, pure, utc_now, query, ◌>>=◌, ◌>>◌,
}

module _ (env : Env) where
  abbrev pub on_statuses : (List StatusRow → List StatusRow) → Db → Option (Unit {0} × Db)
  on_statuses f db = some (tt, record db { sync_status = f db.sync_status })

  unfoldable pub does_blob_exist : ℕ → M RpcStatus Bool
  does_blob_exist blob_id =
      query env internal (λ clock db. some (exists_live (env.bind_uuid blob_id) db.blobs, db))

  unfoldable pub start_blob_sync_with_peer : ℕ → String → M DaNodeError (Unit {0})
  start_blob_sync_with_peer blob_id peer_id = do
    now1 ← utc_now env
    now2 ← utc_now env
    query env database_connection
        (λ clock. on_statuses (upsert_pending now1 now2 clock (env.bind_uuid blob_id) peer_id))

  -- An UPDATE of the status of a blob at a peer.
  abbrev pub set_status : ℕ → String → (StatusRow → StatusRow) → M DaNodeError (Unit {0})
  set_status blob_id peer_id change =
      query env database_connection
        (λ clock. on_statuses (update change clock (env.bind_uuid blob_id) peer_id))

  unfoldable pub set_blob_status_as_completed : ℕ → ℕ → String → M DaNodeError (Unit {0})
  set_blob_status_as_completed timestamp blob_id peer_id =
      set_status blob_id peer_id (succeeded timestamp)

  unfoldable pub set_blob_status_as_pending : ℕ → String → M DaNodeError (Unit {0})
  set_blob_status_as_pending blob_id peer_id = do
    now ← utc_now env
    set_status blob_id peer_id (attempted pending now)

  unfoldable pub set_blob_status_as_failed : ℕ → String → M DaNodeError (Unit {0})
  set_blob_status_as_failed blob_id peer_id = do
    now ← utc_now env
    set_status blob_id peer_id (attempted failed now)

  unfoldable pub verify_received_blob :
      BlobMetadata → Proto.Blob → String → ℕ → String → M DaNodeError Bool
  verify_received_blob metadata other_blob expected_hash blob_id peer_id =
      let computed_hash = env.sha256_hex other_blob.content in
      if not (str_eq computed_hash expected_hash) && not (str_eq metadata.hash expected_hash)
      then (do now ← utc_now env; set_status blob_id peer_id (attempted failed now); pure false)
      else pure true

  -- The row that is inserted for a received blob.
  abbrev pub received_row : ℕ → BlobMetadata → Proto.Blob → BlobRow
  received_row timestamp metadata other_blob = record {
    id = text metadata.id;
    content = other_blob.content;
    metadata = metadata.metadata;
    content_type = metadata.content_type;
    size = metadata.size;
    hash = some metadata.hash;
    owner_id = text metadata.owner_id;
    public_key = metadata.public_key;
    created_at = get_or (env.parse_from_rfc3339 metadata.created_at) timestamp;
    updated_at = timestamp;
    deleted_at = none;
  }

  abbrev pub stored : Db → Option (List BlobRow) → Option (Unit {0} × Db)
  stored db none = none
  stored db (some rows) = some (tt, record db { blobs = rows })

  unfoldable pub store_received_blob : ℕ → BlobMetadata → Proto.Blob → M DaNodeError (Unit {0})
  store_received_blob timestamp metadata other_blob =
      query env database_connection
        (λ clock db. stored db (insert (received_row timestamp metadata other_blob) db.blobs))

  abbrev pub selected : Db → Option (List Blob) → Option (List Blob × Db)
  selected db none = none
  selected db (some blobs) = some (blobs, db)

  unfoldable pub get_blobs_to_share : M DaNodeError (List Blob)
  get_blobs_to_share =
      query env database_connection
        (λ clock db. selected db (decode_all env (to_share db.sync_status db.blobs)))

  unfoldable pub get_pending_peers : ℕ → M DaNodeError (List String)
  get_pending_peers blob_id =
      query env database_connection
        (λ clock db. some (pending_peers (env.bind_uuid blob_id) db.sync_status, db))
