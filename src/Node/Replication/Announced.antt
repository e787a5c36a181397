-- ===== src/Node/Replication/Announced.antt =====
-- A blob that is announced to a node: `handle_announce` of da-node/src/node_api/server.rs, and the
-- round of `process_sync_queue` of node_api/sync.rs that follows it.
use da_concept.Base.{
  ℕ, ◌+◌, ◌≤◌, ◌≡◌, refl, sym, ◌∙◌, String, false, none, some, List, [], ◌∷◌, ◌++◌,
}
use da_concept.Base.Outcome.{ok}
use da_concept.Node.Proto.{BlobMetadata}
use da_concept.Node.Database.Row.{text, BlobRow}
use da_concept.Node.Database.Blobs.{exists_live}
use da_concept.Node.Manager.{P2pConfig, PeerClient, contains, queue_blob_fetch}
use da_concept.Node.Types.{Blob}
use da_concept.Node.World.{Env, World, pure, query, modify_manager, ◌>>=◌}
use da_concept.Node.Server.{handle_announce, does_blob_exist}
use da_concept.Node.Sync.{process_sync_queue, fetch_and_store_blob}
use da_concept.Node.Sync.Single.{process_sync_queue_single}
use da_concept.Node.Replication.{Serves, Asks, fetch_and_store_blob_arrives}

-- The announcement reaches an idle node that does not know the blob.
pub record Announces (env : Env) (w : World) (id : ℕ) (h : String) (metadata : BlobMetadata)
    : Type 0 where
  pub parses : env.parse_uuid metadata.id ≡ some id
  pub unknown : exists_live (text metadata.id) w.db.blobs ≡ false
  pub hash : metadata.hash ≡ h
  pub no_queue : w.manager.blob_queue ≡ []
  pub no_progress : w.manager.in_progress ≡ []
  pub room : 1 ≤ w.manager.config.max_concurrent_syncs

module _ (env : Env) (config : P2pConfig) (w : World) (id : ℕ) (h : String)
    (metadata : BlobMetadata) (up : env.db_fault w.ticks ≡ false)
    (announces : Announces env w id h metadata) where
  -- The world in which the task runs.
  abbrev pub tasked : World
  tasked = record w {
    manager = record w.manager { blob_queue = []; in_progress = id ∷ [] };
    ticks = w.ticks + 1;
  }

  announced : (handle_announce env config (some metadata) w).1 ≡ record w {
    manager = record w.manager { blob_queue = (id, h) ∷ []; in_progress = id ∷ [] };
    ticks = w.ticks + 1;
  }
  unfolding handle_announce does_blob_exist modify_manager queue_blob_fetch contains query ◌>>=◌
      pure
  announced =
      rw
        (
          up, announces.unknown, announces.parses, announces.hash, announces.no_queue,
          announces.no_progress,
        )
        refl

  -- What the round does once its task has returned.
  pub round_lem :
      (fetch_and_store_blob env id h tasked).0 ≡ ok tt
      → ((process_sync_queue env (handle_announce env config (some metadata) w).1).0 ≡ ok tt)
        × ((process_sync_queue env (handle_announce env config (some metadata) w).1).1.db.blobs
            ≡ (fetch_and_store_blob env id h tasked).1.db.blobs)
        × ((process_sync_queue env (handle_announce env config (some metadata) w).1).1.manager
            ≡ w.manager)
  round_lem done =
      let emptied : record w.manager { blob_queue = []; in_progress = [] } ≡ w.manager = λ i.
        record w.manager {
          blob_queue = sym announces.no_queue i;
          in_progress = sym announces.no_progress i;
        } in
      let ticked : World = record w { ticks = w.ticks + 1 } in
      rw (announced, process_sync_queue_single env ticked id h announces.room done)
        (refl, refl, emptied)

module _ (env env' : Env) (config config' : P2pConfig) (v w : World) (id : ℕ) (h peer_id : String)
    (client : PeerClient) (more : List (String × PeerClient)) (row : BlobRow) (blob : Blob)
    (metadata : BlobMetadata) where
  -- When an idle node hears of a blob that it does not know, and its first peer serves the blob under
  -- the announced hash, then the next round over the queue succeeds, and while both databases answer
  -- and the peer is connected the table of blobs has one more row, with the id of the blob as a text,
  -- its content and no deletion, and nothing is queued or in progress.
  pub announced_arrives :
      Announces env w id h metadata
      → Asks env env' w id h peer_id client more row blob
      → Serves env' config' v env client.peer_url w.manager.config.node_id id row blob
      → (new : BlobRow) × ((process_sync_queue env
            (handle_announce env config (some metadata) w).1).0
          ≡ ok tt)
        × ((process_sync_queue env (handle_announce env config (some metadata) w).1).1.db.blobs
            ≡ w.db.blobs ++ new ∷ [])
        × (new.id ≡ text (env'.uuid_to_string blob.id))
        × (new.content ≡ row.content)
        × (new.deleted_at ≡ none)
        × ((process_sync_queue env (handle_announce env config (some metadata) w).1).1.manager
            ≡ w.manager)
  announced_arrives announces asks serves =
      let start : World = tasked env config w id h metadata (asks.answers w.ticks) announces in
      let asking : Asks env env' start id h peer_id client more row blob = record {
        answers = asks.answers;
        absent = asks.absent;
        fresh = asks.fresh;
        first = asks.first;
        connected = asks.connected;
        honest = asks.honest;
      } in
      let (new, done, blobs, id_eq, content_eq, live, statuses) =
        fetch_and_store_blob_arrives env env' config' v start id h peer_id client more row blob
          asking serves in
      let (okay, table, manager) =
        round_lem env config w id h metadata (asks.answers w.ticks) announces done in
      (new, okay, table ∙ blobs, id_eq, content_eq, live, manager)
