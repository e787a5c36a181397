-- ===== src/Node/Sync/Announcing.antt =====
-- `announce_blobs` of da-node/src/node_api/sync.rs: its panics, and the sync manager.
use da_concept.Base.{ℕ, String, Bool, List, [], ◌∷◌, ◌⊎◌, inl, inr}
use da_concept.Node.Proto.{BlobMetadata}
use da_concept.Node.Manager.{PeerClient, get_peer}
use da_concept.Node.Client.{announce_blob}
use da_concept.Node.Types.{Blob}
use da_concept.Node.World.{Env, M, DaNodeError}
use da_concept.Node.World.Quiet.{
  Quiet, Quiet-pure, Quiet-gets, Quiet-query, Quiet-bind, Quiet-option, Quiet-attempt, quiet_rules,
}
use da_concept.Node.Sync.Statements.{
  get_blobs_to_share, get_pending_peers, set_blob_status_as_pending,
}
use da_concept.Node.Sync.Quiet.{Quiet-sync}
use da_concept.Node.Sync.{after_announce, announce_to, announce_each, announce_blobs}

module _ (env : Env) where
  Quiet-announce_blob :
      (self : PeerClient) (metadata : BlobMetadata) → Quiet (announce_blob env self metadata)
  unfolding announce_blob
  Quiet-announce_blob self metadata = search (quiet_rules, Quiet-sync)

  Quiet-pending :
      (blob_id : ℕ) (peer_id : String) → Quiet (set_blob_status_as_pending env blob_id peer_id)
  unfolding set_blob_status_as_pending
  Quiet-pending blob_id peer_id = search quiet_rules

  Quiet-after_announce :
      (blob_id : ℕ) (peer_id : String) (next : M DaNodeError (Unit {0}))
      (answer : Bool ⊎ DaNodeError)
      → Quiet next
      → Quiet (after_announce env blob_id peer_id next answer)
  unfolding after_announce
  Quiet-after_announce blob_id peer_id next (inl accepted) k =
      Quiet-bind _ _ (Quiet-pending blob_id peer_id) (λ _. k)
  Quiet-after_announce blob_id peer_id next (inr e) k = k

  Quiet-announce_to :
      (blob : Blob) (peers : List (String × PeerClient)) (ids : List String)
      → Quiet (announce_to env blob peers ids)
  unfolding announce_to
  Quiet-announce_to blob peers [] = Quiet-pure tt
  Quiet-announce_to blob peers (peer_id ∷ ids) =
      let next = Quiet-announce_to blob peers ids in
      Quiet-option (get_peer peer_id peers) _ _ next λ client.
        Quiet-bind _ _ (Quiet-attempt _ (Quiet-announce_blob client _))
          λ answer. Quiet-after_announce blob.id peer_id _ answer next

  Quiet-announce_each :
      (peers : List (String × PeerClient)) (blobs : List Blob)
      → Quiet (announce_each env peers blobs)
  unfolding announce_each get_pending_peers
  Quiet-announce_each peers [] = Quiet-pure tt
  Quiet-announce_each peers (blob ∷ blobs) =
      Quiet-bind _ _ (Quiet-query env _ _) λ ids.
        Quiet-bind _ _ (Quiet-announce_to blob peers ids) λ _. Quiet-announce_each peers blobs

  pub announce_blobs-Quiet : Quiet (announce_blobs env)
  unfolding announce_blobs get_blobs_to_share
  announce_blobs-Quiet =
      Quiet-bind _ _ (Quiet-gets _)
        λ peers. Quiet-bind _ _ (Quiet-query env _ _) λ blobs. Quiet-announce_each peers blobs
