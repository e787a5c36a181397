-- ===== src/Node/Tests/Replication.antt =====
-- Two nodes, one of which fetches a blob of the other.
use da_concept.Base.{
  ◌≡◌, refl, String, ◌&&◌, some, none, [], ◌∷◌, ◌++◌, str_eq, if◌then◌else◌, arith,
}
use da_concept.Base.Outcome.{ok}
use da_concept.Node.Database.Row.{Key, text, bytes, key_eq, BlobRow, completed}
use da_concept.Node.Database.Blobs.{exists_live, has_id, select_live}
use da_concept.Node.Database.Statuses.Laws.{status_at}
use da_concept.Node.Manager.{PeerClient, contains}
use da_concept.Node.Types.{Blob, decode}
use da_concept.Node.World.{Env, World}
use da_concept.Node.Server
use da_concept.Node.Server.{handle_announce}
use da_concept.Node.Sync.{fetch_and_store_blob, process_sync_queue}
use da_concept.Node.Replication.Announced.{Announces, announced_arrives}
use da_concept.Node.Replication.{arrives, Serves, Asks, fetch_and_store_blob_arrives}
use da_concept.Node.Tests.Sample.{env, metadata, row_of, manager, world}
use da_concept.Node.Tests.Cases.{bytes_world}

-- The peer's requests are answered by the other node.
abbrev pub joined : Env
joined = record env {
  reply = λ n url request. arrives (Server.sync env manager.config request bytes_world).0;
  sha256_hex = λ content. "h7";
}

abbrev pub asking : World
asking = record (world []) { connected = 0 ∷ [] }

abbrev pub peer : PeerClient
peer = record { peer_url = "http://p"; client = 0 }

abbrev pub blob : Blob
blob = record {
  id = 7;
  content = 1 ∷ 2 ∷ 3 ∷ [];
  metadata = none;
  content_type = none;
  size = (row_of (bytes 7)).size;
  hash = some "h7";
  owner_id = 1;
  public_key = b'k' ∷ [];
  created_at = 5;
  updated_at = 5;
  deleted_at = none;
}

pub other-Serves :
    Serves env manager.config bytes_world joined "http://p" "n" 7 (row_of (bytes 7)) blob
unfolding select_live decode
other-Serves = record {
  answers = λ n. refl;
  parses = refl;
  live = refl;
  decodes = refl;
  reached = λ n. refl;
}

pub asking-Asks : Asks joined env asking 7 "h7" "p" peer [] (row_of (bytes 7)) blob
unfolding exists_live has_id contains
asking-Asks = record {
  answers = λ n. refl;
  absent = refl;
  fresh = refl;
  first = refl;
  connected = refl;
  honest = refl;
}

fetch_and_store_blob_arrives_example :
    (new : BlobRow) × ((fetch_and_store_blob joined 7 "h7" asking).0 ≡ ok tt)
    × ((fetch_and_store_blob joined 7 "h7" asking).1.db.blobs ≡ asking.db.blobs ++ new ∷ [])
    × (new.id ≡ text "7")
    × (new.content ≡ 1 ∷ 2 ∷ 3 ∷ [])
    × (new.deleted_at ≡ none)
    × ((j : Key) (q : String)
        → status_at j q (fetch_and_store_blob joined 7 "h7" asking).1.db.sync_status ≡ (
            if key_eq (bytes 7) j && str_eq "p" q
            then some completed
            else status_at j q asking.db.sync_status))
fetch_and_store_blob_arrives_example =
    fetch_and_store_blob_arrives joined env manager.config bytes_world asking 7 "h7" "p" peer []
      (row_of (bytes 7)) blob asking-Asks other-Serves

metadata-Announces : Announces joined asking 7 "h7" metadata
unfolding exists_live
metadata-Announces = record {
  parses = refl;
  unknown = refl;
  hash = refl;
  no_queue = refl;
  no_progress = refl;
  room = omega arith;
}

announced_arrives_example :
    (new : BlobRow) × ((process_sync_queue joined
        (handle_announce joined manager.config (some metadata) asking).1).0
      ≡ ok tt)
    × ((process_sync_queue joined
          (handle_announce joined manager.config (some metadata) asking).1).1.db.blobs
        ≡ asking.db.blobs ++ new ∷ [])
    × (new.id ≡ text "7")
    × (new.content ≡ 1 ∷ 2 ∷ 3 ∷ [])
    × (new.deleted_at ≡ none)
    × ((process_sync_queue joined
          (handle_announce joined manager.config (some metadata) asking).1).1.manager
        ≡ asking.manager)
announced_arrives_example =
    announced_arrives joined env manager.config manager.config bytes_world asking 7 "h7" "p" peer []
      (row_of (bytes 7)) blob metadata metadata-Announces asking-Asks other-Serves
