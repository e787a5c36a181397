-- ===== src/Node/Sync/Quiet.antt =====
-- Fetching a blob never panics and leaves the sync manager alone.
use da_concept.Base.{
  ℕ, refl, String, Bool, true, Option, none, some, List, [], ◌∷◌, ◌⊎◌, inl, inr, Bool-cases,
}
use da_concept.Node.Proto
use da_concept.Node.Proto.{BlobMetadata, RequestType, SyncResponse}
use da_concept.Node.Manager.{PeerClient}
use da_concept.Node.Client.{connect, reconnect, get_client, call, answered, fetch_blob}
use da_concept.Node.Client
use da_concept.Node.World.{Env, M, DaNodeError}
use da_concept.Node.Sync.Statements.{
  does_blob_exist, start_blob_sync_with_peer, set_blob_status_as_completed,
  set_blob_status_as_failed, verify_received_blob, store_received_blob,
}
use da_concept.Node.Sync.{
  start_with_all, store_verified, receive, after_fetch, fetch_from, fetch_and_store_blob,
}
use da_concept.Node.World.Quiet.{
  Quiet, Quiet-pure, Quiet-throw, Quiet-query, Quiet-bind, Quiet-if, Quiet-option, Quiet-attempt,
  quiet_rules,
}

module _ (env : Env) where
  Quiet-connect : (self : PeerClient) → Quiet (connect env self)
  unfolding connect
  Quiet-connect self = record {
    no_panic = λ w p. elim (Bool-cases (env.connects w.ticks self.peer_url)) [
      | inl up ↦ cc (rw up at p)
      | inr down ↦ cc (rw down at p)
    ];
    same_manager = λ w. elim (Bool-cases (env.connects w.ticks self.peer_url)) [
      | inl up ↦ rw up refl
      | inr down ↦ rw down refl
    ];
  }

  Quiet-reconnect : (self : PeerClient) → Quiet (reconnect env self)
  unfolding reconnect
  Quiet-reconnect self = search (quiet_rules, Quiet-connect)

  Quiet-get_client : (self : PeerClient) → Quiet (get_client env self)
  unfolding get_client
  Quiet-get_client self = search (quiet_rules, Quiet-reconnect)

  Quiet-call : (self : PeerClient) (request : RequestType) → Quiet (call env self request)
  unfolding call
  Quiet-call self request = record { no_panic = λ w e. cc; same_manager = λ w. refl }

  Quiet-answered : (o : Option SyncResponse) → Quiet (answered env o)
  unfolding answered
  Quiet-answered none = Quiet-throw _
  Quiet-answered (some r) = Quiet-pure _

  pub Quiet-sync :
      (self : PeerClient) (request : RequestType) → Quiet (Client.sync env self request)
  unfolding Client.sync
  Quiet-sync self request = search (quiet_rules, Quiet-get_client, Quiet-call, Quiet-answered)

  Quiet-fetch_blob :
      (self : PeerClient) (node_id : String) (blob_id : ℕ) (include_content : Bool)
      → Quiet (fetch_blob env self node_id blob_id include_content)
  unfolding fetch_blob
  Quiet-fetch_blob self node_id blob_id include_content = search (quiet_rules, Quiet-sync)

  Quiet-start :
      (blob_id : ℕ) (peer_id : String) → Quiet (start_blob_sync_with_peer env blob_id peer_id)
  unfolding start_blob_sync_with_peer
  Quiet-start blob_id peer_id = search quiet_rules

  Quiet-failed :
      (blob_id : ℕ) (peer_id : String) → Quiet (set_blob_status_as_failed env blob_id peer_id)
  unfolding set_blob_status_as_failed
  Quiet-failed blob_id peer_id = search quiet_rules

  Quiet-receive :
      (blob_id : ℕ) (h peer_id : String) (metadata : BlobMetadata) (blob : Proto.Blob)
      → Quiet (receive env blob_id h peer_id metadata blob)
  unfolding receive verify_received_blob store_verified store_received_blob
      set_blob_status_as_completed
  Quiet-receive blob_id h peer_id metadata blob = search quiet_rules depth 12

  Quiet-after_fetch :
      (blob_id : ℕ) (h peer_id : String) (next : M DaNodeError (Unit {0}))
      (answer : Option Proto.Blob ⊎ DaNodeError)
      → Quiet next
      → Quiet (after_fetch env blob_id h peer_id next answer)
  unfolding after_fetch
  Quiet-after_fetch blob_id h peer_id next (inl (some blob)) k =
      Quiet-option blob.metadata _ _ k λ metadata.
        Quiet-bind _ _ (Quiet-receive blob_id h peer_id metadata blob)
          λ stored. Quiet-if stored _ _ (Quiet-pure _) k
  Quiet-after_fetch blob_id h peer_id next (inl none) k =
      Quiet-bind _ _ (Quiet-failed blob_id peer_id) (λ _. k)
  Quiet-after_fetch blob_id h peer_id next (inr e) k =
      Quiet-bind _ _ (Quiet-failed blob_id peer_id) (λ _. k)

  Quiet-start_with_all :
      (blob_id : ℕ) (peers : List (String × PeerClient)) → Quiet (start_with_all env blob_id peers)
  unfolding start_with_all
  Quiet-start_with_all blob_id [] = Quiet-pure tt
  Quiet-start_with_all blob_id ((peer_id, client) ∷ peers) =
      Quiet-bind _ _ (Quiet-start blob_id peer_id) (λ _. Quiet-start_with_all blob_id peers)

  Quiet-fetch_from :
      (blob_id : ℕ) (h node_id : String) (peers : List (String × PeerClient))
      → Quiet (fetch_from env blob_id h node_id peers)
  unfolding fetch_from
  Quiet-fetch_from blob_id h node_id [] = Quiet-pure tt
  Quiet-fetch_from blob_id h node_id ((peer_id, client) ∷ peers) =
      Quiet-bind _ _ (Quiet-start blob_id peer_id) λ _.
        Quiet-bind _ _ (Quiet-attempt _ (Quiet-fetch_blob client node_id blob_id true)) λ answer.
          Quiet-after_fetch blob_id h peer_id _ answer (Quiet-fetch_from blob_id h node_id peers)

  Quiet-exists : (blob_id : ℕ) → Quiet (does_blob_exist env blob_id)
  unfolding does_blob_exist
  Quiet-exists blob_id = Quiet-query env _ _

  pub fetch_and_store_blob-Quiet :
      (blob_id : ℕ) (h : String) → Quiet (fetch_and_store_blob env blob_id h)
  unfolding fetch_and_store_blob
  fetch_and_store_blob-Quiet blob_id h =
      search (quiet_rules, Quiet-exists, Quiet-start_with_all, Quiet-fetch_from) depth 8
