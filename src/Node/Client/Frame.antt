-- ===== src/Node/Client/Frame.antt =====
-- A request to a peer changes neither the database nor the manager.
use da_concept.Base.{ℕ, refl, String, Bool, Option, none, some, inl, inr, Bool-cases}
use da_concept.Node.Proto.{BlobMetadata, RequestType, SyncResponse}
use da_concept.Node.Manager.{PeerClient}
use da_concept.Node.World.{Env, World}
use da_concept.Node.World.Ensures.{Ensures, IsFrame, frame_rules}
use da_concept.Node.Client.{
  connect, reconnect, get_client, call, answered, sync, fetch_blob, announce_blob,
}

module _ {Q : World → World → Type 0} (frame : IsFrame Q) (env : Env) where
  pub connect_frame : (self : PeerClient) → Ensures Q (connect env self)
  unfolding connect
  connect_frame self = record {
    at = λ w. elim (Bool-cases (env.connects w.ticks self.peer_url)) [
      | inl up ↦ rw up (frame.unseen w _ refl refl)
      | inr down ↦ rw down (frame.unseen w _ refl refl)
    ];
  }

  reconnect_frame : (self : PeerClient) → Ensures Q (reconnect env self)
  unfolding reconnect
  reconnect_frame self = search (frame_rules, connect_frame)

  get_client_frame : (self : PeerClient) → Ensures Q (get_client env self)
  unfolding get_client
  get_client_frame self = search (frame_rules, reconnect_frame)

  call_frame : (self : PeerClient) (request : RequestType) → Ensures Q (call env self request)
  unfolding call
  call_frame self request = record {
    at = λ w. frame.unseen w (call env self request w).1 refl refl;
  }

  answered_frame : (o : Option SyncResponse) → Ensures Q (answered env o)
  unfolding answered
  answered_frame none = search frame_rules
  answered_frame (some r) = search frame_rules

  pub sync_frame : (self : PeerClient) (request : RequestType) → Ensures Q (sync env self request)
  unfolding sync
  sync_frame self request = search (frame_rules, get_client_frame, call_frame, answered_frame)

  pub fetch_blob_frame :
      (self : PeerClient) (node_id : String) (blob_id : ℕ) (include_content : Bool)
      → Ensures Q (fetch_blob env self node_id blob_id include_content)
  unfolding fetch_blob
  fetch_blob_frame self node_id blob_id include_content = search (frame_rules, sync_frame)

  pub announce_blob_frame :
      (self : PeerClient) (metadata : BlobMetadata) → Ensures Q (announce_blob env self metadata)
  unfolding announce_blob
  announce_blob_frame self metadata = search (frame_rules, sync_frame)
