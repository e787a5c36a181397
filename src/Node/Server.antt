-- ===== src/Node/Server.antt =====
-- da-node/src/node_api/server.rs: the requests of other nodes. `tracing` is left out.
pub mod Answers
pub mod Peers
pub mod Ensures
pub mod Announced
pub mod Misses
use Prim.Native.String.{◌++◌ as ◌<>◌}
use mathlib.Core.Option.{get_or}
use mathlib.Core.Option
use da_concept.Base.{
  ℕ, ◌+◌, String, Bool, true, false, not, Option, none, some, List, [], ◌∷◌, map, if◌then◌else◌,
}
use da_concept.Base.Int.{ℤ}
use da_concept.Node.Proto
use da_concept.Node.Proto.{
  SyncStatus, success, error, not_found, already_exists, BlobMetadata, PeerSyncStatus, acknowledged,
  RequestType, announce, fetch, delete, status, node_info, handshake, ResponseData, announce_resp,
  fetch_resp, delete_resp, status_resp, node_info_resp, handshake_resp, SyncResponse,
}
use da_concept.Node.Database.{Db}
use da_concept.Node.Database.Row.{
  Key, text, bytes, BlobRow, Status, pending, completed, failed, StatusRow,
}
use da_concept.Node.Database.Blobs.{exists_live, select_live, mark_deleted, count_live, sum_live}
use da_concept.Node.Database.Statuses.{update, succeeded, of_blob}
use da_concept.Node.Manager.{P2pConfig, PeerClient, SyncManager, insert_peer, queue_blob_fetch}
use da_concept.Node.World.{
  Env, World, M, RpcStatus, internal, invalid_argument, pure, throw, modify_manager, utc_now, query,
  ◌>>=◌, ◌>>◌,
}
use da_concept.Node.Types.{Blob, decode}
use da_concept.Base.Outcome.{Outcome, ok, err}

abbrev pub response : SyncStatus → String → Option ResponseData → SyncResponse
response st message answer = record { status = st; message = message; response_data = answer }

-- The text of a status column.
abbrev status_text : Status → String
status_text pending = "pending"
status_text completed = "completed"
status_text failed = "failed"

module _ (env : Env) (config : P2pConfig) where
  unfoldable pub does_blob_exist : String → M RpcStatus Bool
  does_blob_exist blob_id =
      query env internal (λ clock db. some (exists_live (text blob_id) db.blobs, db))

  abbrev decoded_row : Db → Option BlobRow → Option (Option Blob × Db)
  decoded_row db none = some (none, db)
  decoded_row db (some row) = Option.map (λ blob. (some blob, db)) (decode env row)

  unfoldable pub fetch_blob_by_id : ℕ → M RpcStatus (Option Blob)
  fetch_blob_by_id blob_id =
      query env internal (λ clock db. decoded_row db (select_live (env.bind_uuid blob_id) db.blobs))

  unfoldable pub mark_blob_as_deleted : String → M RpcStatus (Unit {0})
  mark_blob_as_deleted blob_id = do
    now ← utc_now env
    query env internal (λ clock db.
        some (tt, record db { blobs = mark_deleted now clock (text blob_id) db.blobs }))

  unfoldable pub mark_blob_status_as_completed : ℕ → ℕ → String → M RpcStatus (Unit {0})
  mark_blob_status_as_completed timestamp blob_id peer_id = query env internal (λ clock db. some (
    tt,
    record db {
      sync_status =
          update (succeeded timestamp) clock (env.bind_uuid blob_id) peer_id db.sync_status;
    },
  ))

  abbrev pub parsed : Option ℕ → M RpcStatus ℕ
  parsed none = throw (invalid_argument "Invalid uuid")
  parsed (some id) = pure id

  unfoldable pub handle_announce : Option BlobMetadata → M RpcStatus SyncResponse
  handle_announce none = pure (response error "Missing metadata" none)
  handle_announce (some metadata) = do
    there ← does_blob_exist metadata.id
    if there
        then pure (response already_exists "Blob already exists" (some (announce_resp false)))
        else do
          blob_id ← parsed (env.parse_uuid metadata.id)
          modify_manager (λ m. queue_blob_fetch m blob_id metadata.hash)
          pure (response success "Blob announcement accepted" (some (announce_resp true)))

  abbrev pub proto_metadata : Blob → BlobMetadata
  proto_metadata blob = record {
    id = env.uuid_to_string blob.id;
    hash = get_or blob.hash "";
    content_type = blob.content_type;
    size = blob.size;
    owner_id = env.uuid_to_string blob.owner_id;
    public_key = blob.public_key;
    metadata = blob.metadata;
    created_at = env.to_rfc3339 blob.created_at;
    deleted_at = Option.map env.to_rfc3339 blob.deleted_at;
  }

  unfoldable pub handle_fetch : String → String → Bool → M RpcStatus SyncResponse
  handle_fetch requested peer_id include_content = do
    blob_id ← parsed (env.parse_uuid requested)
    found ← fetch_blob_by_id blob_id
    elim found [
      | none ↦ pure (response not_found ("Blob not found: " <> requested) (some (fetch_resp none)))
      | some blob ↦ do
        let proto_blob : Proto.Blob = record {
          metadata = some (proto_metadata blob);
          content = if include_content then blob.content else [];
        }
        now ← utc_now env
        mark_blob_status_as_completed now blob.id peer_id
        pure (response success "Blob fetched successfully" (some (fetch_resp (some proto_blob))))
    ]

  unfoldable pub handle_delete : String → M RpcStatus SyncResponse
  handle_delete blob_id = do
    blob_exists ← does_blob_exist blob_id
    if not blob_exists
        then pure (response not_found ("Blob not found: " <> blob_id) (some (delete_resp false)))
        else do
          mark_blob_as_deleted blob_id
          pure (response success "Blob deleted successfully" (some (delete_resp true)))

  abbrev peer_status : StatusRow → Option PeerSyncStatus
  peer_status row =
      Option.map
        (λ blob_id. record {
          peer_id = row.peer_node_id;
          blob_id = blob_id;
          status = status_text row.sync_status;
          last_sync_attempt = Option.map env.to_rfc3339 row.last_sync_attempt;
          last_successful_sync = Option.map env.to_rfc3339 row.last_successful_sync;
        })
        (env.decode_string row.blob_id)

  abbrev consed :
      Option PeerSyncStatus → Option (List PeerSyncStatus) → Option (List PeerSyncStatus)
  consed (some x) (some xs) = some (x ∷ xs)
  consed _ _ = none

  -- `fetch_all` fails if any row cannot be decoded.
  unfoldable pub peer_statuses : List StatusRow → Option (List PeerSyncStatus)
  peer_statuses [] = some []
  peer_statuses (row ∷ rows) = consed (peer_status row) (peer_statuses rows)

  unfoldable pub handle_sync_status : String → M RpcStatus SyncResponse
  handle_sync_status blob_id = do
    statuses ← query env internal (λ clock db.
        Option.map (λ rows. (rows, db)) (peer_statuses (of_blob (text blob_id) db.sync_status)))
    pure (response success "Sync status retrieved" (some (status_resp statuses)))

  unfoldable pub handle_node_info : M RpcStatus SyncResponse
  handle_node_info = do
    blob_count ←
        query env internal
          (λ clock db. Option.map (λ count. (count, db)) (env.decode_i32 (count_live db.blobs)))
    storage_used ←
        query env internal
          (λ clock db. Option.map (λ sum. (sum, db)) (env.decode_i64 (sum_live db.blobs)))
    pure (
        response success "Node info retrieved" (
          some (
            node_info_resp config.node_id blob_count storage_used
              ("blob_sync" ∷ "user_auth" ∷ []))))

  -- `SyncManager::add_peer`, with the new cell of its client.
  unfoldable pub add_peer : String → String → M RpcStatus (Unit {0})
  add_peer peer_id peer_url w = (
    ok tt,
    record w {
      manager = record w.manager {
        peers =
            insert_peer peer_id (record { peer_url = peer_url; client = w.cells }) w.manager.peers;
      };
      cells = w.cells + 1;
    },
  )

  unfoldable pub handle_handshake : String → String → M RpcStatus SyncResponse
  handle_handshake node_id node_url = do
    add_peer node_id node_url
    pure (
        response success "Handshake successful"
          (some (handshake_resp acknowledged (some config.node_id))))

  -- `SyncService::sync`
  unfoldable pub sync : Option RequestType → M RpcStatus SyncResponse
  sync (some (announce metadata)) = handle_announce metadata
  sync (some (fetch blob_id peer_id include_content)) = handle_fetch blob_id peer_id include_content
  sync (some (delete blob_id)) = handle_delete blob_id
  sync (some (status blob_id)) = handle_sync_status blob_id
  sync (some node_info) = handle_node_info
  sync (some (handshake node_id node_url)) = handle_handshake node_id node_url
  sync none = pure (response error "Invalid request type" none)
