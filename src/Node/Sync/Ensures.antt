-- ===== src/Node/Sync/Ensures.antt =====
-- The statements and the fetches of da-node/src/node_api/sync.rs stay in every relation that permits
-- what they write.
pub mod Rounds
use da_concept.Node.Permits.{Permits}
use da_concept.Node.Database.Blobs.{insert}
use da_concept.Node.Database.{Db}
use mathlib.Core.Path.{subst}
use da_concept.Node.Database.Row.{BlobRow}
use da_concept.Node.Sync.Statements.{stored}
use da_concept.Base.{
  ◌≡◌, refl, ℕ, String, true, Option, none, some, List, [], ◌∷◌, ◌⊎◌, inl, inr, arith,
}
use da_concept.Node.Proto
use da_concept.Node.Proto.{BlobMetadata}
use da_concept.Node.Database.Row.{Status, StatusRow}
use da_concept.Node.Database.Blobs.Laws.{UniqueIds, insert-UniqueIds}
use da_concept.Node.Database.Statuses.{attempted, succeeded}
use da_concept.Node.Database.Statuses.Laws.{
  UniquePairs, SetsStatus, update-UniquePairs, upsert_pending-UniquePairs, attempted-SetsStatus,
  succeeded-SetsStatus,
}
use da_concept.Node.Manager.{PeerClient}
use da_concept.Node.Client.Frame.{fetch_blob_frame}
use da_concept.Node.World.{Env, World, M, DaNodeError, query}
use da_concept.Node.World.Ensures.{
  Ensures, IsFrame, frame_rules, Ensures-query, Ensures-read, Ensures-bind, Ensures-pure,
  Ensures-option, Ensures-attempt, Ensures-if,
}
use da_concept.Node.Sync.Statements.{
  does_blob_exist, start_blob_sync_with_peer, set_status, set_blob_status_as_completed,
  set_blob_status_as_pending, set_blob_status_as_failed, verify_received_blob, received_row,
  store_received_blob, on_statuses,
}
use da_concept.Node.Sync.{
  start_with_all, store_verified, receive, after_fetch, fetch_from, fetch_and_store_blob,
}

module _ {Q : World → World → Type 0} (permits : Permits Q) (env : Env) where
  frame : IsFrame Q
  frame = permits.frame

  statuses-Ensures :
      {E : Type 0} (e : E) (f : ℕ → List StatusRow → List StatusRow)
      → ((clock : ℕ) (rows : List StatusRow) → UniquePairs rows → UniquePairs (f clock rows))
      → Ensures Q (query env e (λ clock. on_statuses env (f clock)))
  statuses-Ensures e f h = Ensures-query frame env e _ λ clock w a db p.
      let same : record w.db { sync_status = f clock w.db.sync_status } ≡ db = ground arith in
      subst (λ d. Q w (record w { db = d })) same
        (permits.on_statuses w (f clock w.db.sync_status) (h clock w.db.sync_status))

  set_status-Ensures :
      {s : Status} (blob_id : ℕ) (peer_id : String) (change : StatusRow → StatusRow)
      → SetsStatus s change
      → Ensures Q (set_status env blob_id peer_id change)
  set_status-Ensures blob_id peer_id change c =
      statuses-Ensures _ _ λ clock rows u. update-UniquePairs c clock _ peer_id rows u

  attempted-Ensures :
      (s : Status) (now blob_id : ℕ) (peer_id : String)
      → Ensures Q (set_status env blob_id peer_id (attempted s now))
  attempted-Ensures s now blob_id peer_id =
      set_status-Ensures blob_id peer_id _ (attempted-SetsStatus s now)

  succeeded-Ensures :
      (now blob_id : ℕ) (peer_id : String)
      → Ensures Q (set_status env blob_id peer_id (succeeded now))
  succeeded-Ensures now blob_id peer_id =
      set_status-Ensures blob_id peer_id _ (succeeded-SetsStatus now)

  ruleset allowed = (frame_rules, frame, attempted-Ensures, succeeded-Ensures)

  start-Ensures :
      (blob_id : ℕ) (peer_id : String) → Ensures Q (start_blob_sync_with_peer env blob_id peer_id)
  unfolding start_blob_sync_with_peer
  start-Ensures blob_id peer_id = Ensures-bind frame _ _ (search allowed) λ now1.
      Ensures-bind frame _ _ (search allowed) λ now2.
        statuses-Ensures _ _
          λ clock rows u. upsert_pending-UniquePairs now1 now2 clock _ peer_id rows u

  completed-Ensures :
      (now blob_id : ℕ) (peer_id : String)
      → Ensures Q (set_blob_status_as_completed env now blob_id peer_id)
  unfolding set_blob_status_as_completed
  completed-Ensures now blob_id peer_id = search allowed

  pub pending-Ensures :
      (blob_id : ℕ) (peer_id : String) → Ensures Q (set_blob_status_as_pending env blob_id peer_id)
  unfolding set_blob_status_as_pending
  pending-Ensures blob_id peer_id = search allowed

  failed-Ensures :
      (blob_id : ℕ) (peer_id : String) → Ensures Q (set_blob_status_as_failed env blob_id peer_id)
  unfolding set_blob_status_as_failed
  failed-Ensures blob_id peer_id = search allowed

  store-Ensures :
      (now : ℕ) (metadata : BlobMetadata) (blob : Proto.Blob)
      → Ensures Q (store_received_blob env now metadata blob)
  unfolding store_received_blob
  store-Ensures now metadata blob = Ensures-query frame env _ _ λ clock w a db p.
      let row = received_row env now metadata blob in go w db (insert row w.db.blobs) refl p
    where
      go :
          (w : World) (db : Db) {a : Unit {0}} (o : Option (List BlobRow))
          → insert (received_row env now metadata blob) w.db.blobs ≡ o
          → stored env w.db o ≡ some (a, db)
          → Q w (record w { db = db })
      go w db none e p = cc
      go w db (some rows) e p =
          let same : record w.db { blobs = rows } ≡ db = cc in
          subst (λ d. Q w (record w { db = d })) same
            (permits.on_insert w (received_row env now metadata blob) rows refl e)

  store_verified-Ensures :
      (blob_id : ℕ) (peer_id : String) (metadata : BlobMetadata) (blob : Proto.Blob)
      → Ensures Q (store_verified env blob_id peer_id metadata blob)
  unfolding store_verified
  store_verified-Ensures blob_id peer_id metadata blob =
      search (allowed, store-Ensures, completed-Ensures)

  receive-Ensures :
      (blob_id : ℕ) (h peer_id : String) (metadata : BlobMetadata) (blob : Proto.Blob)
      → Ensures Q (receive env blob_id h peer_id metadata blob)
  unfolding receive verify_received_blob
  receive-Ensures blob_id h peer_id metadata blob = search (allowed, store_verified-Ensures) depth 8

  after_fetch-Ensures :
      (blob_id : ℕ) (h peer_id : String) (next : M DaNodeError (Unit {0}))
      (answer : Option Proto.Blob ⊎ DaNodeError)
      → Ensures Q next
      → Ensures Q (after_fetch env blob_id h peer_id next answer)
  unfolding after_fetch
  after_fetch-Ensures blob_id h peer_id next (inl (some blob)) k =
      Ensures-option frame blob.metadata _ _ k λ metadata.
        Ensures-bind frame _ _ (receive-Ensures blob_id h peer_id metadata blob)
          λ stored. Ensures-if frame stored _ _ (Ensures-pure frame _) k
  after_fetch-Ensures blob_id h peer_id next (inl none) k =
      Ensures-bind frame _ _ (failed-Ensures blob_id peer_id) (λ _. k)
  after_fetch-Ensures blob_id h peer_id next (inr e) k =
      Ensures-bind frame _ _ (failed-Ensures blob_id peer_id) (λ _. k)

  start_with_all-Ensures :
      (blob_id : ℕ) (peers : List (String × PeerClient))
      → Ensures Q (start_with_all env blob_id peers)
  unfolding start_with_all
  start_with_all-Ensures blob_id [] = search allowed
  start_with_all-Ensures blob_id ((peer_id, client) ∷ peers) =
      Ensures-bind frame _ _ (start-Ensures blob_id peer_id)
        (λ _. start_with_all-Ensures blob_id peers)

  fetch_from-Ensures :
      (blob_id : ℕ) (h node_id : String) (peers : List (String × PeerClient))
      → Ensures Q (fetch_from env blob_id h node_id peers)
  unfolding fetch_from
  fetch_from-Ensures blob_id h node_id [] = search allowed
  fetch_from-Ensures blob_id h node_id ((peer_id, client) ∷ peers) =
      Ensures-bind frame _ _ (start-Ensures blob_id peer_id) λ _.
        Ensures-bind frame _ _
          (Ensures-attempt Q _ (fetch_blob_frame frame env client node_id blob_id true))
          λ answer.
            after_fetch-Ensures blob_id h peer_id _ answer
              (fetch_from-Ensures blob_id h node_id peers)

  exists-Ensures : (blob_id : ℕ) → Ensures Q (does_blob_exist env blob_id)
  unfolding does_blob_exist
  exists-Ensures blob_id = Ensures-read frame env _ _ λ clock d db a p. ground arith

  pub fetch_and_store_blob-Ensures :
      (blob_id : ℕ) (h : String) → Ensures Q (fetch_and_store_blob env blob_id h)
  unfolding fetch_and_store_blob
  fetch_and_store_blob-Ensures blob_id h =
      search (allowed, exists-Ensures, start_with_all-Ensures, fetch_from-Ensures) depth 8
