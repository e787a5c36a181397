-- ===== src/Node/Server/Ensures.antt =====
-- The requests of da-node/src/node_api/server.rs stay in every relation that permits what they write.
use da_concept.Node.Permits.{Permits, Ensures-write}
use da_concept.Node.World.Ensures.{IsFrame}
use da_concept.Base.{ℕ, String, Bool, not, Option, none, some, arith}
use da_concept.Node.Proto.{
  BlobMetadata, RequestType, announce, fetch, delete, status, node_info, handshake,
}
use da_concept.Node.Database.Row.{text}
use da_concept.Node.Database.Statuses.Laws.{update-UniquePairs, succeeded-SetsStatus}
use da_concept.Node.Manager.{P2pConfig, queue_blob_fetch}
use da_concept.Node.World.{Env, World, RpcStatus, modify_manager}
use da_concept.Node.World.Ensures.{
  Ensures, Ensures-pure, Ensures-throw, Ensures-bind, Ensures-if, Ensures-option, Ensures-utc_now,
  Ensures-read,
}
use da_concept.Node.Server.{
  does_blob_exist, fetch_blob_by_id, mark_blob_as_deleted, mark_blob_status_as_completed, parsed,
  handle_announce, handle_fetch, handle_delete, handle_sync_status, handle_node_info, add_peer,
  handle_handshake, sync,
}

module _ {Q : World → World → Type 0} (permits : Permits Q) (env : Env) (config : P2pConfig) where
  frame : IsFrame Q
  frame = permits.frame

  parsed-Ensures : (o : Option ℕ) → Ensures Q (parsed env config o)
  parsed-Ensures none = Ensures-throw frame _
  parsed-Ensures (some id) = Ensures-pure frame id

  enqueue-Ensures :
      (id : ℕ) (hash : String)
      → Ensures Q (modify_manager {E = RpcStatus} (λ m. queue_blob_fetch m id hash))
  unfolding modify_manager
  enqueue-Ensures id hash = record { at = λ w. permits.on_enqueue w id hash }

  exists-Ensures : (id : String) → Ensures Q (does_blob_exist env config id)
  unfolding does_blob_exist
  exists-Ensures id = Ensures-read frame env _ _ λ clock d db a p. ground arith

  announce-Ensures :
      (metadata : Option BlobMetadata) → Ensures Q (handle_announce env config metadata)
  unfolding handle_announce
  announce-Ensures none = Ensures-pure frame _
  announce-Ensures (some metadata) = Ensures-bind frame _ _ (exists-Ensures metadata.id) λ there.
      Ensures-if frame there _ _ (Ensures-pure frame _) (
        Ensures-bind frame _ _ (parsed-Ensures (env.parse_uuid metadata.id))
          λ id. Ensures-bind frame _ _ (enqueue-Ensures id metadata.hash) λ _. Ensures-pure frame _)

  select-Ensures : (id : ℕ) → Ensures Q (fetch_blob_by_id env config id)
  unfolding fetch_blob_by_id
  select-Ensures id = Ensures-read frame env _ _ λ clock d db a p. ground arith

  completed-Ensures :
      (now id : ℕ) (peer_id : String)
      → Ensures Q (mark_blob_status_as_completed env config now id peer_id)
  unfolding mark_blob_status_as_completed
  completed-Ensures now id peer_id = Ensures-write frame env _ _ λ clock w.
      permits.on_statuses w _
        (λ u. update-UniquePairs (succeeded-SetsStatus now) clock _ peer_id w.db.sync_status u)

  fetch-Ensures :
      (requested peer_id : String) (include_content : Bool)
      → Ensures Q (handle_fetch env config requested peer_id include_content)
  unfolding handle_fetch
  fetch-Ensures requested peer_id include_content =
      Ensures-bind frame _ _ (parsed-Ensures (env.parse_uuid requested)) λ id.
        Ensures-bind frame _ _ (select-Ensures id) λ found.
          Ensures-option frame found _ _ (Ensures-pure frame _) λ blob.
            Ensures-bind frame _ _ (Ensures-utc_now frame env) λ now.
              Ensures-bind frame _ _ (completed-Ensures now blob.id peer_id)
                λ _. Ensures-pure frame _

  mark-Ensures : (id : String) → Ensures Q (mark_blob_as_deleted env config id)
  unfolding mark_blob_as_deleted
  mark-Ensures id =
      Ensures-bind frame _ _ (Ensures-utc_now frame env)
        λ now. Ensures-write frame env _ _ λ clock w. permits.on_delete w now clock (text id)

  delete-Ensures : (id : String) → Ensures Q (handle_delete env config id)
  unfolding handle_delete
  delete-Ensures id = Ensures-bind frame _ _ (exists-Ensures id) λ there.
      Ensures-if frame (not there) _ _ (Ensures-pure frame _)
        (Ensures-bind frame _ _ (mark-Ensures id) λ _. Ensures-pure frame _)

  status-Ensures : (id : String) → Ensures Q (handle_sync_status env config id)
  unfolding handle_sync_status
  status-Ensures id =
      Ensures-bind frame _ _ (Ensures-read frame env _ _ λ clock d db a p. ground arith)
        λ rows. Ensures-pure frame _

  node_info-Ensures : Ensures Q (handle_node_info env config)
  unfolding handle_node_info
  node_info-Ensures =
      Ensures-bind frame _ _ (Ensures-read frame env _ _ λ clock d db a p. ground arith) λ count.
        Ensures-bind frame _ _ (Ensures-read frame env _ _ λ clock d db a p. ground arith)
          λ sum. Ensures-pure frame _

  add_peer-Ensures : (peer_id peer_url : String) → Ensures Q (add_peer env config peer_id peer_url)
  unfolding add_peer
  add_peer-Ensures peer_id peer_url = record { at = λ w. permits.on_peers w _ _ }

  handshake-Ensures :
      (node_id node_url : String) → Ensures Q (handle_handshake env config node_id node_url)
  unfolding handle_handshake
  handshake-Ensures node_id node_url =
      Ensures-bind frame _ _ (add_peer-Ensures node_id node_url) λ _. Ensures-pure frame _

  pub sync-Ensures : (request : Option RequestType) → Ensures Q (sync env config request)
  unfolding sync
  sync-Ensures (some (announce metadata)) = announce-Ensures metadata
  sync-Ensures (some (fetch blob_id peer_id include_content)) =
      fetch-Ensures blob_id peer_id include_content
  sync-Ensures (some (delete blob_id)) = delete-Ensures blob_id
  sync-Ensures (some (status blob_id)) = status-Ensures blob_id
  sync-Ensures (some node_info) = node_info-Ensures
  sync-Ensures (some (handshake node_id node_url)) = handshake-Ensures node_id node_url
  sync-Ensures none = Ensures-pure frame _
