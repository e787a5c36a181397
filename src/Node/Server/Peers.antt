-- ===== src/Node/Server/Peers.antt =====
-- What a handshake of another node (da-node/src/node_api/server.rs) and a second announcement do.
use da_concept.Base.{
  ℕ, ◌+◌, ◌≡◌, refl, String, some, Bool-cases, inl, inr, str_eq, if◌then◌else◌, arith,
}
use da_concept.Base.Outcome.{ok}
use da_concept.Node.Proto.{success, handshake_resp, acknowledged}
use da_concept.Node.Manager.{P2pConfig, SyncManager, get_peer, contains, queue_blob_fetch}
use da_concept.Node.World.{Env, World, pure, ◌>>=◌}
use da_concept.Node.Server.{response, add_peer, handle_handshake}
use da_concept.Node.Server.Answers.{get_peer-insert_peer}

-- A handshake succeeds and is answered with the id of this node; then the peer is known under its
-- id and address with a new cell for its connection, other peers are known as before, and the
-- database and the queue stay.
pub handle_handshake_lem :
    (env : Env) (config : P2pConfig) (node_id node_url : String) (w : World)
    → ((handle_handshake env config node_id node_url w).0
        ≡ ok (
            response success "Handshake successful"
              (some (handshake_resp acknowledged (some config.node_id)))))
      × ((j : String)
          → get_peer j (handle_handshake env config node_id node_url w).1.manager.peers ≡ (
              if str_eq node_id j
              then some (record { peer_url = node_url; client = w.cells })
              else get_peer j w.manager.peers))
      × ((handle_handshake env config node_id node_url w).1.cells ≡ w.cells + 1)
      × ((handle_handshake env config node_id node_url w).1.db ≡ w.db)
      × ((handle_handshake env config node_id node_url w).1.manager.blob_queue
          ≡ w.manager.blob_queue)
unfolding handle_handshake add_peer ◌>>=◌ pure
handle_handshake_lem env config node_id node_url w =
    (refl, λ j. get_peer-insert_peer node_id j _ w.manager.peers, refl, refl, refl)

-- A blob that is asked for again, under any hash, before it was fetched is not queued again.
queue_blob_fetch-queue_blob_fetch :
    (m : SyncManager) (blob_id : ℕ) (hash other : String)
    → queue_blob_fetch (queue_blob_fetch m blob_id hash) blob_id other
      ≡ queue_blob_fetch m blob_id hash
unfolding queue_blob_fetch contains
queue_blob_fetch-queue_blob_fetch m blob_id hash other =
    elim (Bool-cases (contains blob_id m.in_progress)) [
      | inl old ↦ rw (old, old) refl
      | inr new ↦ rw new (ground arith)
    ]
