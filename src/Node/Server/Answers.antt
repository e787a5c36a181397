-- ===== src/Node/Server/Answers.antt =====
-- What the requests of da-node/src/node_api/server.rs do to the database and to the manager.
use da_concept.Base.{
  ℕ, ◌+◌, ◌≡◌, refl, String, Bool, true, false, ◌&&◌, none, some, List, [], ◌∷◌, Bool-cases, inl,
  inr, str_eq, eq_iff, if◌then◌else◌, arith,
}
use da_concept.Base.Outcome.{ok}
use da_concept.Node.Proto.{success, not_found, fetch_resp, delete_resp}
use da_concept.Node.Database.Row.{Key, text, key_eq, key_eq_iff, BlobRow}
use da_concept.Node.Database.Blobs.{exists_live, select_live}
use da_concept.Node.Database.Blobs.Laws.{exists_live-select_live, select_live-mark_deleted}
use da_concept.Node.Database.Row.{completed}
use da_concept.Node.Database.Statuses.{has_row}
use da_concept.Node.Database.Statuses.Laws.{status_at, status_at-update, succeeded-SetsStatus}
use da_concept.Node.Types.{Blob, decode}
use da_concept.Node.Manager.{P2pConfig, PeerClient, get_peer, insert_peer}
use da_concept.Node.World.{Env, World, pure, utc_now, query, ◌>>=◌}
use da_concept.Node.Server.{
  response, proto_metadata, fetch_blob_by_id, mark_blob_status_as_completed, handle_fetch,
  does_blob_exist, mark_blob_as_deleted, handle_delete,
}
use Prim.Native.String.{◌++◌ as ◌<>◌}

decode_content :
    (env : Env) (row : BlobRow) (blob : Blob)
    → decode env row ≡ some blob
    → blob.content ≡ row.content
unfolding decode
decode_content env row blob h = ground arith

-- Deleting where nothing is live hides nothing.
absent_hidden :
    (id j : Key) (rows : List BlobRow)
    → exists_live id rows ≡ false
    → select_live j rows ≡ (if key_eq id j then none else select_live j rows)
absent_hidden id j rows e =
    ground (arith, key_eq_iff id j, exists_live-select_live id rows, exists_live-select_live j rows)

module _ (env : Env) (config : P2pConfig) (w : World) where
  -- While the database answers, a request to delete is answered by whether a live row has the id
  -- itself, as a text; afterwards no live row has that text as its id, and every other key selects
  -- what it did.
  pub handle_delete_lem :
      (id : String)
      → env.db_fault w.ticks ≡ false
      → env.db_fault (w.ticks + 1 + 1) ≡ false
      → ((handle_delete env config id w).0
          ≡ ok (
              if exists_live (text id) w.db.blobs
              then response success "Blob deleted successfully" (some (delete_resp true))
              else response not_found ("Blob not found: " <> id) (some (delete_resp false))))
        × ((j : Key)
            → select_live j (handle_delete env config id w).1.db.blobs
              ≡ (if key_eq (text id) j then none else select_live j w.db.blobs))
  unfolding handle_delete does_blob_exist mark_blob_as_deleted ◌>>=◌ pure utc_now query
  handle_delete_lem id up1 up2 = elim (Bool-cases (exists_live (text id) w.db.blobs)) [
    | inl there ↦
        rw (up1, there, up2) (refl, λ j. select_live-mark_deleted _ _ (text id) j w.db.blobs)
    | inr gone ↦ rw (up1, gone) (refl, λ j. absent_hidden (text id) j w.db.blobs gone)
  ]

  module _ (requested peer_id : String) (include_content : Bool) (id : ℕ)
      (up : env.db_fault w.ticks ≡ false) (parses : env.parse_uuid requested ≡ some id) where
    -- While the database answers, for a requested id that parses, when the row that is selected under
    -- the UUID's own key is live and can be decoded, its blob is sent, the content only on request.
    -- The table of blobs stays, and no status but that of the blob at the asking peer, if there is
    -- one, is another than before: it becomes completed.
    pub handle_fetch_found :
        (row : BlobRow) (blob : Blob)
        → env.db_fault (w.ticks + 1 + 1) ≡ false
        → select_live (env.bind_uuid id) w.db.blobs ≡ some row
        → decode env row ≡ some blob
        → ((handle_fetch env config requested peer_id include_content w).0
            ≡ ok (
                response success "Blob fetched successfully" (
                  some (
                    fetch_resp (
                      some (record {
                        metadata = some (proto_metadata env config blob);
                        content = if include_content then row.content else [];
                      }))))))
          × ((handle_fetch env config requested peer_id include_content w).1.db.blobs ≡ w.db.blobs)
          × ((j : Key) (q : String)
              → status_at j q
                  (handle_fetch env config requested peer_id include_content w).1.db.sync_status
                ≡ (if key_eq (env.bind_uuid blob.id) j
                      && str_eq peer_id q
                      && has_row (env.bind_uuid blob.id) peer_id w.db.sync_status
                    then some completed
                    else status_at j q w.db.sync_status))
    unfolding handle_fetch fetch_blob_by_id mark_blob_status_as_completed ◌>>=◌ pure utc_now query
    handle_fetch_found row blob up2 live decodes =
        rw (parses, up, live, decodes, up2)
          (
            rw (decode_content env row blob decodes) refl,
            refl,
            λ j q. status_at-update (succeeded-SetsStatus _) _ _ j peer_id q w.db.sync_status,
          )

    -- While the database answers, a blob that is not live is not found, and the database stays.
    pub handle_fetch_hidden :
        select_live (env.bind_uuid id) w.db.blobs ≡ none
        → ((handle_fetch env config requested peer_id include_content w).0
            ≡ ok (response not_found ("Blob not found: " <> requested) (some (fetch_resp none))))
          × ((handle_fetch env config requested peer_id include_content w).1.db ≡ w.db)
    unfolding handle_fetch fetch_blob_by_id ◌>>=◌ pure query
    handle_fetch_hidden gone = rw (parses, up, gone) (refl, refl)

-- A peer that is added is found, with its client; the other peers stay.
pub get_peer-insert_peer :
    (id j : String) (client : PeerClient) (peers : List (String × PeerClient))
    → get_peer j (insert_peer id client peers)
      ≡ (if str_eq id j then some client else get_peer j peers)
unfolding get_peer insert_peer
get_peer-insert_peer id j client [] = ground arith
get_peer-insert_peer id j client ((k, c) ∷ peers) =
    ground (arith, eq_iff k id, eq_iff k j, eq_iff id j, get_peer-insert_peer id j client peers)
