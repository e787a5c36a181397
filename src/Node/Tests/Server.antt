-- ===== src/Node/Tests/Server.antt =====
-- The server at concrete inputs.
use Prim.Native.String.{◌++◌ as ◌<>◌}
use da_concept.Node.Tests.Sample.{env, metadata, row_of, manager, world}
use da_concept.Base.{
  ◌++◌, ◌≡◌, refl, String, true, false, ◌&&◌, none, some, [], ◌∷◌, str_eq, if◌then◌else◌,
}
use da_concept.Base.Outcome.{ok}
use da_concept.Node.World.{World}
use da_concept.Node.Proto.{BlobMetadata, success, not_found, announce_resp, delete_resp, fetch_resp}
use da_concept.Node.Database.Row.{Key, text, bytes, key_eq, completed}
use da_concept.Node.Database.Blobs.{exists_live, select_live}
use da_concept.Node.Database.Statuses.{has_row}
use da_concept.Node.Database.Statuses.Laws.{status_at}
use da_concept.Node.Manager.{contains}
use da_concept.Node.Types.{Blob, decode}
use da_concept.Node.Server.{response, proto_metadata, handle_delete, handle_announce, handle_fetch}
use da_concept.Node.Server.Misses.{handle_fetch-handle_delete}
use da_concept.Node.Server.Announced.{handle_announce_twice}
use da_concept.Node.Server.Answers.{handle_fetch_found}
use da_concept.Node.Tests.Cases.{bytes_world}

abbrev blob : Blob
blob = record {
  id = 7;
  content = 1 ∷ 2 ∷ 3 ∷ [];
  metadata = none;
  content_type = none;
  size = (row_of (bytes 7)).size;
  hash = some "h7";
  owner_id = 1;
  public_key = b'k' ∷ [];
  created_at = 5;
  updated_at = 5;
  deleted_at = none;
}

selects : select_live (bytes 7) bytes_world.db.blobs ≡ some (row_of (bytes 7))
unfolding select_live
selects = refl

decodes : decode env (row_of (bytes 7)) ≡ some blob
unfolding decode
decodes = refl

handle_fetch_found_example :
    ((handle_fetch env manager.config "7" "p" true bytes_world).0
      ≡ ok (
          response success "Blob fetched successfully" (
            some (
              fetch_resp (
                some (record {
                  metadata = some (proto_metadata env manager.config blob);
                  content = 1 ∷ 2 ∷ 3 ∷ [];
                }))))))
    × ((handle_fetch env manager.config "7" "p" true bytes_world).1.db.blobs ≡ bytes_world.db.blobs)
    × ((j : Key) (q : String)
        → status_at j q (handle_fetch env manager.config "7" "p" true bytes_world).1.db.sync_status
          ≡ (if key_eq (bytes 7) j
                && str_eq "p" q
                && has_row (bytes 7) "p" bytes_world.db.sync_status
              then some completed
              else status_at j q bytes_world.db.sync_status))
handle_fetch_found_example =
    handle_fetch_found env manager.config bytes_world "7" "p" true 7 refl refl (row_of (bytes 7))
      blob refl selects decodes

-- The blob is live under its UUID, and stays so.
handle_fetch-handle_delete_example :
    ((handle_delete env manager.config "7" bytes_world).0
      ≡ ok (
          if exists_live (text "7") bytes_world.db.blobs
          then response success "Blob deleted successfully" (some (delete_resp true))
          else response not_found ("Blob not found: " <> "7") (some (delete_resp false))))
    × ((j : Key)
        → select_live j (handle_delete env manager.config "7" bytes_world).1.db.blobs
          ≡ (if key_eq (text "7") j then none else select_live j bytes_world.db.blobs))
    × ((handle_fetch env manager.config "7" "p" true
          (handle_delete env manager.config "7" bytes_world).1).0
        ≡ ok (
            response success "Blob fetched successfully" (
              some (
                fetch_resp (
                  some (record {
                    metadata = some (proto_metadata env manager.config blob);
                    content = 1 ∷ 2 ∷ 3 ∷ [];
                  }))))))
handle_fetch-handle_delete_example =
    handle_fetch-handle_delete env manager.config bytes_world "7" "p" true 7 (row_of (bytes 7)) blob
      (λ n. refl) refl (λ e. cc) selects decodes

-- Another peer announces the blob under another hash.
abbrev again : BlobMetadata
again = record metadata { hash = "h8" }

unknown : exists_live (text "7") (world []).db.blobs ≡ false
unfolding exists_live
unknown = refl

abbrev told : World
told = (handle_announce env manager.config (some metadata) (world [])).1

handle_announce_twice_example :
    ((handle_announce env manager.config (some metadata) (world [])).0
      ≡ ok (response success "Blob announcement accepted" (some (announce_resp true))))
    × (contains 7 told.manager.in_progress ≡ true)
    × (told.manager.blob_queue
        ≡ (if contains 7 manager.in_progress then [] else [] ++ (7, "h7") ∷ []))
    × (told.db ≡ (world []).db)
    × ((handle_announce env manager.config (some again) told).0
        ≡ (handle_announce env manager.config (some metadata) (world [])).0)
    × ((handle_announce env manager.config (some again) told).1.manager ≡ told.manager)
    × ((handle_announce env manager.config (some again) told).1.db ≡ told.db)
handle_announce_twice_example =
    handle_announce_twice env manager.config (world []) metadata again 7 refl refl refl unknown refl
