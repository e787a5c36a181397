-- ===== src/Node/Replication/Revived.antt =====
-- A blob that its owner deletes comes back: `Mutation::delete_blob` of da-node/src/user_api/mod.rs
-- queues it to be fetched, and the round of `process_sync_queue` of node_api/sync.rs that follows
-- stores it again, under its id as a text.
use mathlib.Core.Option.{get_or}
use da_concept.Base.{ℕ, ◌+◌, ◌≤◌, ◌≡◌, String, true, false, ◌==◌, some, List, [], ◌∷◌}
use da_concept.Node.Database.Row.{text, BlobRow}
use da_concept.Node.Database.Blobs.{has_id, select_live, mark_deleted}
use da_concept.Node.Manager.{P2pConfig, PeerClient, contains}
use da_concept.Node.Types.{Blob, decode}
use da_concept.Node.World.{Env, World}
use da_concept.Node.UserApi.Types.{User}

-- The owner asks an idle node, whose first peer is connected, to delete a blob; the row of the blob
-- names the hash `h`, and no row has the id that the peer sends as a text.
pub record Deletes (env env' : Env) (w : World) (user : User) (id : ℕ) (h peer_id : String)
    (client : PeerClient) (more : List (String × PeerClient)) (row : BlobRow) (blob : Blob)
    (served : BlobRow) (sent : Blob) : Type 0 where
  pub answers : (n : ℕ) → env.db_fault n ≡ false
  pub live : select_live (env.bind_uuid id) w.db.blobs ≡ some row
  pub decodes : decode env row ≡ some blob
  pub same_id : blob.id ≡ id
  pub hash : get_or blob.hash "" ≡ h
  pub own : (blob.owner_id == user.id) ≡ true
  pub no_queue : w.manager.blob_queue ≡ []
  pub no_progress : w.manager.in_progress ≡ []
  pub room : 1 ≤ w.manager.config.max_concurrent_syncs
  pub fresh : has_id (text (env'.uuid_to_string sent.id)) w.db.blobs ≡ false
  pub first : w.manager.peers ≡ (peer_id, client) ∷ more
  pub connected : contains client.client w.connected ≡ true
  pub honest : env.sha256_hex served.content ≡ h

module _ (env env' : Env) (config' : P2pConfig) (v w : World) (user : User) (id : ℕ)
    (h peer_id : String) (client : PeerClient) (more : List (String × PeerClient)) (row : BlobRow)
    (blob : Blob) (served : BlobRow) (sent : Blob)
    (deletes : Deletes env env' w user id h peer_id client more row blob served sent) where
  -- The table, the connections and the manager that the deletion leaves.
  abbrev Left : World → Type 0
  Left d =
      (d.db.blobs
        ≡ mark_deleted (env.now (w.ticks + 1)) (env.now (w.ticks + 1 + 1)) (env.bind_uuid id)
            w.db.blobs)
      × (d.connected ≡ w.connected)
      × (d.manager ≡ record w.manager { blob_queue = (id, h) ∷ []; in_progress = id ∷ [] })
