-- ===== src/Node/Sync/Ensures/Rounds.antt =====
-- The rounds of the loop of da-node/src/node_api/sync.rs stay in every relation that permits what
-- they write and does not see the manager.
use da_concept.Node.Permits.{Permits}
use da_concept.Node.Sync.Ensures.{pending-Ensures, fetch_and_store_blob-Ensures}
use da_concept.Base.{ℕ, zero, suc, String, Bool, List, [], ◌∷◌, ◌⊎◌, inl, inr, arith}
use da_concept.Base.Outcome.{Outcome, ok, err, panic}
use da_concept.Node.Manager.{PeerClient, SyncManager, get_peer, take_batch}
use da_concept.Node.Types.{Blob}
use da_concept.Node.Client.Frame.{connect_frame, announce_blob_frame}
use da_concept.Node.World.{Env, World, M, DaNodeError, modify_manager}
use da_concept.Node.World.Ensures.{
  Ensures, IsFrame, frame_rules, Ensures-read, Ensures-bind, Ensures-pure, Ensures-option,
  Ensures-attempt, Ensures-joined,
}
use da_concept.Node.Sync.Statements.{get_blobs_to_share, get_pending_peers}
use da_concept.Node.Sync.{
  task_end, run_tasks, pop_batch, process_sync_queue, after_announce, announce_to, announce_each,
  announce_blobs, connect_all, sync_rounds, start_sync_loop,
}

module _ {Q : World → World → Type 0} (permits : Permits Q)
    (blind : (w : World) (m : SyncManager) → Q w (record w { manager = m })) (env : Env) where
  frame : IsFrame Q
  frame = permits.frame

  modify_manager-Ensures :
      (f : SyncManager → SyncManager) → Ensures Q (modify_manager {E = DaNodeError} f)
  unfolding modify_manager
  modify_manager-Ensures f = record { at = λ w. blind w (f w.manager) }

  pop_batch-Ensures : Ensures Q (pop_batch env)
  unfolding pop_batch
  pop_batch-Ensures = record { at = λ w. blind w (take_batch w.manager).1 }

  ruleset allowed = (frame_rules, frame)

  task_end-Ensures :
      (blob_id : ℕ) (outcome : Outcome DaNodeError (Unit {0}))
      → Ensures Q (task_end env blob_id outcome)
  unfolding task_end
  task_end-Ensures blob_id panic = search allowed
  task_end-Ensures blob_id (ok u) = search (allowed, modify_manager-Ensures)
  task_end-Ensures blob_id (err e) = search (allowed, modify_manager-Ensures)

  run_tasks-Ensures : (tasks : List (ℕ × String)) → Ensures Q (run_tasks env tasks)
  unfolding run_tasks
  run_tasks-Ensures [] = search allowed
  run_tasks-Ensures ((blob_id, h) ∷ tasks) =
      Ensures-bind frame _ _
        (Ensures-joined Q _ (fetch_and_store_blob-Ensures permits env blob_id h))
        λ outcome.
          Ensures-bind frame _ _ (task_end-Ensures blob_id outcome) λ panicked.
            Ensures-bind frame _ _ (run_tasks-Ensures tasks) λ later. Ensures-pure frame _

  process_sync_queue-Ensures : Ensures Q (process_sync_queue env)
  unfolding process_sync_queue
  process_sync_queue-Ensures = search (allowed, pop_batch-Ensures, run_tasks-Ensures) depth 8

  after_announce-Ensures :
      (blob_id : ℕ) (peer_id : String) (next : M DaNodeError (Unit {0}))
      (answer : Bool ⊎ DaNodeError)
      → Ensures Q next
      → Ensures Q (after_announce env blob_id peer_id next answer)
  unfolding after_announce
  after_announce-Ensures blob_id peer_id next (inl accepted) k =
      Ensures-bind frame _ _ (pending-Ensures permits env blob_id peer_id) (λ _. k)
  after_announce-Ensures blob_id peer_id next (inr e) k = k

  announce_to-Ensures :
      (blob : Blob) (peers : List (String × PeerClient)) (pending : List String)
      → Ensures Q (announce_to env blob peers pending)
  unfolding announce_to
  announce_to-Ensures blob peers [] = search allowed
  announce_to-Ensures blob peers (peer_id ∷ rest) =
      let next = announce_to-Ensures blob peers rest in
      Ensures-option frame (get_peer peer_id peers) _ _ next λ client.
        Ensures-bind frame _ _ (Ensures-attempt Q _ (announce_blob_frame frame env client _))
          λ answer. after_announce-Ensures blob.id peer_id _ answer next

  shared-Ensures : Ensures Q (get_blobs_to_share env)
  unfolding get_blobs_to_share
  shared-Ensures = Ensures-read frame env _ _ λ clock d db a p. ground arith

  peers-Ensures : (blob_id : ℕ) → Ensures Q (get_pending_peers env blob_id)
  unfolding get_pending_peers
  peers-Ensures blob_id = Ensures-read frame env _ _ λ clock d db a p. ground arith

  announce_each-Ensures :
      (peers : List (String × PeerClient)) (blobs : List Blob)
      → Ensures Q (announce_each env peers blobs)
  unfolding announce_each
  announce_each-Ensures peers [] = search allowed
  announce_each-Ensures peers (blob ∷ blobs) =
      Ensures-bind frame _ _ (peers-Ensures blob.id) λ pending.
        Ensures-bind frame _ _ (announce_to-Ensures blob peers pending)
          λ _. announce_each-Ensures peers blobs

  announce_blobs-Ensures : Ensures Q (announce_blobs env)
  unfolding announce_blobs
  announce_blobs-Ensures = search (allowed, shared-Ensures, announce_each-Ensures) depth 8

  connect_all-Ensures : (peers : List (String × PeerClient)) → Ensures Q (connect_all env peers)
  unfolding connect_all
  connect_all-Ensures [] = search allowed
  connect_all-Ensures ((peer_id, client) ∷ peers) =
      Ensures-bind frame _ _ (Ensures-attempt Q _ (connect_frame frame env client))
        (λ _. connect_all-Ensures peers)

  sync_rounds-Ensures : (rounds : ℕ) → Ensures Q (sync_rounds env rounds)
  unfolding sync_rounds
  sync_rounds-Ensures zero = search allowed
  sync_rounds-Ensures (suc rounds) =
      Ensures-bind frame _ _ process_sync_queue-Ensures
        λ _. Ensures-bind frame _ _ announce_blobs-Ensures λ _. sync_rounds-Ensures rounds

  pub start_sync_loop-Ensures : (rounds : ℕ) → Ensures Q (start_sync_loop env rounds)
  unfolding start_sync_loop
  start_sync_loop-Ensures rounds =
      search (allowed, connect_all-Ensures, sync_rounds-Ensures) depth 8
