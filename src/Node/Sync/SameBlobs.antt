-- ===== src/Node/Sync/SameBlobs.antt =====
-- What the sync manager does without touching the table `blobs`.
use da_concept.Base.{ℕ, ◌≡◌, ap, ◌∙◌, String, List, [], ◌∷◌, arith}
use da_concept.Node.Database.Row.{StatusRow}
use da_concept.Node.Manager.{PeerClient}
use da_concept.Node.World.{Env, World, query}
use da_concept.Node.World.Ensures.{Ensures, IsFrame, frame_rules, Ensures-query, Ensures-bind}
use da_concept.Node.Sync.Statements.{
  start_blob_sync_with_peer, set_blob_status_as_completed, set_blob_status_as_failed, on_statuses,
}
use da_concept.Node.Sync.{start_with_all}

-- The table is left alone.
pub record SameBlobs (v w : World) : Type 0 where
  pub blobs : w.db.blobs ≡ v.db.blobs

pub SameBlobs-frame : IsFrame SameBlobs
SameBlobs-frame = record {
  unseen = λ v w d m. record { blobs = ap (λ d. d.blobs) d };
  and_then = λ u v w h k. record { blobs = k.blobs ∙ h.blobs };
}

module _ (env : Env) where
  pub statuses-SameBlobs :
      {E : Type 0} (e : E) (f : ℕ → List StatusRow → List StatusRow)
      → Ensures SameBlobs (query env e (λ clock. on_statuses env (f clock)))
  statuses-SameBlobs e f =
      Ensures-query SameBlobs-frame env e _ λ clock w a db p. record { blobs = ground arith }

  ruleset same_blobs = (frame_rules, SameBlobs-frame, statuses-SameBlobs)

  pub start-SameBlobs :
      (blob_id : ℕ) (peer_id : String)
      → Ensures SameBlobs (start_blob_sync_with_peer env blob_id peer_id)
  unfolding start_blob_sync_with_peer
  start-SameBlobs blob_id peer_id = search same_blobs

  pub failed-SameBlobs :
      (blob_id : ℕ) (peer_id : String)
      → Ensures SameBlobs (set_blob_status_as_failed env blob_id peer_id)
  unfolding set_blob_status_as_failed
  failed-SameBlobs blob_id peer_id = search same_blobs

  pub completed-SameBlobs :
      (now blob_id : ℕ) (peer_id : String)
      → Ensures SameBlobs (set_blob_status_as_completed env now blob_id peer_id)
  unfolding set_blob_status_as_completed
  completed-SameBlobs now blob_id peer_id = search same_blobs

  pub start_with_all-SameBlobs :
      (blob_id : ℕ) (peers : List (String × PeerClient))
      → Ensures SameBlobs (start_with_all env blob_id peers)
  unfolding start_with_all
  start_with_all-SameBlobs blob_id [] = search same_blobs
  start_with_all-SameBlobs blob_id ((peer_id, client) ∷ peers) =
      Ensures-bind SameBlobs-frame _ _ (start-SameBlobs blob_id peer_id)
        (λ _. start_with_all-SameBlobs blob_id peers)
