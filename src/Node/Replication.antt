-- ===== src/Node/Replication.antt =====
-- Two nodes: `fetch_and_store_blob` of da-node/src/node_api/sync.rs at one, answered by `sync` of
-- da-node/src/node_api/server.rs at the other.
pub mod Announced
pub mod Added
pub mod EndToEnd
pub mod Hidden
pub mod Revived
use da_concept.Base.{
  ℕ, ◌+◌, ◌≡◌, refl, String, true, false, Option, none, some, List, [], ◌∷◌, ◌++◌, str_eq, eq_iff,
  ◌&&◌, if◌then◌else◌,
}
use da_concept.Base.Outcome.{Outcome, ok}
use da_concept.Node.Proto.{success, RequestType, fetch, fetch_resp, SyncResponse}
use da_concept.Node.Proto
use da_concept.Node.Database.Row.{Key, text, key_eq, BlobRow, completed, StatusRow}
use da_concept.Node.Database.Statuses.{update, succeeded, upsert_pending}
use da_concept.Node.Database.Statuses.Laws.{status_at, status_at-synchronised}
use da_concept.Node.Database.Blobs.{exists_live, has_id, insert, select_live}
use da_concept.Node.Manager.{P2pConfig, PeerClient, contains}
use da_concept.Node.Types.{Blob, decode}
use da_concept.Node.World.{
  Env, World, RpcStatus, pure, gets, attempt, map_err, utc_now, query, ◌>>=◌,
}
use da_concept.Node.Client
use da_concept.Node.Client.{get_client, call, answered}
use da_concept.Node.Server
use da_concept.Node.Server.{response, proto_metadata}
use da_concept.Node.Server.Answers.{handle_fetch_found}
use da_concept.Node.Sync.Statements.{
  received_row, does_blob_exist, start_blob_sync_with_peer, verify_received_blob,
  store_received_blob, set_blob_status_as_completed,
}
use da_concept.Node.Sync.{store_verified, receive, after_fetch, fetch_from, fetch_and_store_blob}

-- What arrives of a server's answer.
abbrev pub arrives : Outcome RpcStatus SyncResponse → Option SyncResponse
arrives (ok response) = some response
arrives _ = none

-- The other node, which has the blob, and how its peer at `url` reaches it.
pub record Serves (env' : Env) (config' : P2pConfig) (v : World) (env : Env) (url node_id : String)
    (id : ℕ) (row : BlobRow) (blob : Blob) : Type 0 where
  pub answers : (n : ℕ) → env'.db_fault n ≡ false
  pub parses : env'.parse_uuid (env.uuid_to_string id) ≡ some id
  pub live : select_live (env'.bind_uuid id) v.db.blobs ≡ some row
  pub decodes : decode env' row ≡ some blob
  pub reached :
      (n : ℕ)
      → env.reply n url (some (fetch (env.uuid_to_string id) node_id true))
        ≡ arrives (Server.sync env' config' (some (fetch (env.uuid_to_string id) node_id true)) v).0

-- The node that asks: it has neither the blob nor its id, and its first peer is connected.
pub record Asks (env env' : Env) (w : World) (id : ℕ) (h : String) (peer_id : String)
    (client : PeerClient) (more : List (String × PeerClient)) (row : BlobRow) (blob : Blob)
    : Type 0 where
  pub answers : (n : ℕ) → env.db_fault n ≡ false
  pub absent : exists_live (env.bind_uuid id) w.db.blobs ≡ false
  pub fresh : has_id (text (env'.uuid_to_string blob.id)) w.db.blobs ≡ false
  pub first : w.manager.peers ≡ (peer_id, client) ∷ more
  pub connected : contains client.client w.connected ≡ true
  pub honest : env.sha256_hex row.content ≡ h

module _ (env env' : Env) (config' : P2pConfig) (v w : World) (id : ℕ) (h peer_id : String)
    (client : PeerClient) (more : List (String × PeerClient)) (row : BlobRow) (blob : Blob) where
  -- The blob as it is sent.
  abbrev sent_blob : Proto.Blob
  sent_blob = record { metadata = some (proto_metadata env' config' blob); content = row.content }

  sent :
      Serves env' config' v env client.peer_url w.manager.config.node_id id row blob
      → (Server.sync env' config'
          (some (fetch (env.uuid_to_string id) w.manager.config.node_id true))
          v).0
        ≡ ok (response success "Blob fetched successfully" (some (fetch_resp (some sent_blob))))
  unfolding Server.sync
  sent serves =
      (handle_fetch_found env' config' v (env.uuid_to_string id) w.manager.config.node_id true id
        (serves.answers v.ticks) serves.parses row blob (serves.answers (v.ticks + 1 + 1))
        serves.live serves.decodes).0

  -- What the task stores and leaves.
  abbrev arrived : BlobRow
  arrived =
      received_row env (env.now (w.ticks + 1 + 1 + 1 + 1 + 1)) (proto_metadata env' config' blob)
        sent_blob

  abbrev marked : List StatusRow
  marked =
      let t : ℕ = w.ticks in
      update (succeeded (env.now (t + 1 + 1 + 1 + 1 + 1))) (env.now (t + 1 + 1 + 1 + 1 + 1 + 1 + 1))
        (env.bind_uuid id) peer_id
        (upsert_pending (env.now (t + 1)) (env.now (t + 1 + 1)) (env.now (t + 1 + 1 + 1))
          (env.bind_uuid id) peer_id w.db.sync_status)

  runs :
      Asks env env' w id h peer_id client more row blob
      → Serves env' config' v env client.peer_url w.manager.config.node_id id row blob
      → ((fetch_and_store_blob env id h w).0 ≡ ok tt)
        × ((fetch_and_store_blob env id h w).1.db.blobs ≡ w.db.blobs ++ arrived ∷ [])
        × ((fetch_and_store_blob env id h w).1.db.sync_status ≡ marked)
  unfolding fetch_and_store_blob fetch_from after_fetch receive store_verified does_blob_exist
      start_blob_sync_with_peer verify_received_blob store_received_blob
      set_blob_status_as_completed Client.fetch_blob Client.sync get_client call answered gets
      attempt map_err utc_now query insert ◌>>=◌ pure
  runs asks serves =
      let t : ℕ = w.ticks in
      rw
        (
          asks.first,
          asks.answers t,
          asks.absent,
          asks.answers (t + 1 + 1 + 1),
          asks.connected,
          serves.reached (t + 1 + 1 + 1 + 1),
          sent serves,
          (eq_iff (env.sha256_hex row.content) h).1 asks.honest,
          asks.answers (t + 1 + 1 + 1 + 1 + 1 + 1),
          asks.fresh,
          asks.answers (t + 1 + 1 + 1 + 1 + 1 + 1 + 1),
        )
        (refl, refl, refl)

  -- A blob that a node lacks is fetched from its first peer. While both databases answer and the
  -- peer is connected: when no live row of the node has the id as a UUID and no row has the id that
  -- the peer sends as a text, and the peer reads the id that it is asked for, selects the blob as
  -- live, decodes it, and its content has the hash that is expected, then the task returns, the table
  -- of blobs has one more row, with the sent id as a text, the peer's content and no deletion, and the
  -- blob is completed at that peer while every other status is as before.
  pub fetch_and_store_blob_arrives :
      Asks env env' w id h peer_id client more row blob
      → Serves env' config' v env client.peer_url w.manager.config.node_id id row blob
      → (new : BlobRow) × ((fetch_and_store_blob env id h w).0 ≡ ok tt)
        × ((fetch_and_store_blob env id h w).1.db.blobs ≡ w.db.blobs ++ new ∷ [])
        × (new.id ≡ text (env'.uuid_to_string blob.id))
        × (new.content ≡ row.content)
        × (new.deleted_at ≡ none)
        × ((j : Key) (q : String)
            → status_at j q (fetch_and_store_blob env id h w).1.db.sync_status ≡ (
                if key_eq (env.bind_uuid id) j && str_eq peer_id q
                then some completed
                else status_at j q w.db.sync_status))
  fetch_and_store_blob_arrives asks serves =
      let (done, blobs, statuses) = runs asks serves in
      (
        arrived,
        done,
        blobs,
        refl,
        refl,
        refl,
        λ j q.
            rw statuses
              (status_at-synchronised _ _ _ _ _ (env.bind_uuid id) j peer_id q w.db.sync_status),
      )
