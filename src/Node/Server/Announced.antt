-- ===== src/Node/Server/Announced.antt =====
-- Announcements of one blob that follow each other: `handle_announce` of
-- da-node/src/node_api/server.rs, and `queue_blob_fetch` of node_api/sync.rs.
use da_concept.Base.{
  ℕ, ◌+◌, ◌≡◌, refl, String, true, false, some, [], ◌∷◌, ◌++◌, Bool-cases, inl, inr, ==_iff,
  if◌then◌else◌,
}
use da_concept.Base.Outcome.{ok}
use da_concept.Node.Proto.{BlobMetadata, success, announce_resp}
use da_concept.Node.Database.Row.{text}
use da_concept.Node.Database.Blobs.{exists_live}
use da_concept.Node.Manager.{P2pConfig, SyncManager, contains, queue_blob_fetch}
use da_concept.Node.World.{Env, World, pure, query, modify_manager, ◌>>=◌}
use da_concept.Node.Server.{response, does_blob_exist, handle_announce}

contains-queue_blob_fetch :
    (m : SyncManager) (id : ℕ) (h : String)
    → contains id (queue_blob_fetch m id h).in_progress ≡ true
unfolding queue_blob_fetch contains
contains-queue_blob_fetch m id h = elim (Bool-cases (contains id m.in_progress)) [
  | inl old ↦ rw old old
  | inr new ↦ rw (new, (==_iff id id).1 refl) refl
]

blob_queue-queue_blob_fetch :
    (m : SyncManager) (id : ℕ) (h : String)
    → (queue_blob_fetch m id h).blob_queue
      ≡ (if contains id m.in_progress then m.blob_queue else m.blob_queue ++ (id, h) ∷ [])
unfolding queue_blob_fetch
blob_queue-queue_blob_fetch m id h = elim (Bool-cases (contains id m.in_progress)) [
  | inl old ↦ rw old refl
  | inr new ↦ rw new refl
]

known_stays :
    (m : SyncManager) (id : ℕ) (h : String)
    → contains id m.in_progress ≡ true
    → queue_blob_fetch m id h ≡ m
unfolding queue_blob_fetch
known_stays m id h old = rw old refl

module _ (env : Env) (config : P2pConfig) where
  -- What an announcement of a blob does that no live row has under its text.
  accepted :
      (w : World) (metadata : BlobMetadata) (id : ℕ)
      → env.db_fault w.ticks ≡ false
      → env.parse_uuid metadata.id ≡ some id
      → exists_live (text metadata.id) w.db.blobs ≡ false
      → handle_announce env config (some metadata) w ≡ (
        ok (response success "Blob announcement accepted" (some (announce_resp true))),
        record w { manager = queue_blob_fetch w.manager id metadata.hash; ticks = w.ticks + 1 },
      )
  unfolding handle_announce does_blob_exist modify_manager ◌>>=◌ pure query
  accepted w metadata id up parses unknown = rw (up, unknown, parses) refl

  -- While the database answers, when a blob is announced whose id parses and is, as a text, the id of
  -- no live row, the announcement is accepted: the blob is in progress afterwards, and was put at the
  -- end of the queue under the announced hash unless it was in progress before. A second
  -- announcement of the same id, whatever hash it names, gets the same answer and changes nothing
  -- more.
  pub handle_announce_twice :
      (w : World) (metadata again : BlobMetadata) (id : ℕ)
      → env.db_fault w.ticks ≡ false
      → env.db_fault (w.ticks + 1) ≡ false
      → env.parse_uuid metadata.id ≡ some id
      → exists_live (text metadata.id) w.db.blobs ≡ false
      → again.id ≡ metadata.id
      → let first = (handle_announce env config (some metadata) w).1 in
        ((handle_announce env config (some metadata) w).0
          ≡ ok (response success "Blob announcement accepted" (some (announce_resp true))))
        × (contains id first.manager.in_progress ≡ true)
        × (first.manager.blob_queue ≡ (
            if contains id w.manager.in_progress
            then w.manager.blob_queue
            else w.manager.blob_queue ++ (id, metadata.hash) ∷ []))
        × (first.db ≡ w.db)
        × ((handle_announce env config (some again) first).0
            ≡ (handle_announce env config (some metadata) w).0)
        × ((handle_announce env config (some again) first).1.manager ≡ first.manager)
        × ((handle_announce env config (some again) first).1.db ≡ first.db)
  handle_announce_twice w metadata again id up up' parses unknown same =
      let m : SyncManager = queue_blob_fetch w.manager id metadata.hash in
      let first : World = record w { manager = m; ticks = w.ticks + 1 } in
      let listed : contains id m.in_progress ≡ true =
        contains-queue_blob_fetch w.manager id metadata.hash in
      rw
        (
          accepted w metadata id up parses unknown,
          accepted first again id up' (rw same parses) (rw same unknown),
        )
        (
          refl,
          listed,
          blob_queue-queue_blob_fetch w.manager id metadata.hash,
          refl,
          refl,
          known_stays m id again.hash listed,
          refl,
        )
