-- ===== src/Node/Tests/Announcements.antt =====
-- A round of announcements at a concrete node.
use da_concept.Base.{◌≡◌, refl, none, some, [], ◌∷◌, arith}
use da_concept.Base.Outcome.{ok}
use da_concept.Node.Proto.{announce}
use da_concept.Node.Database.Row.{Key, bytes}
use da_concept.Node.Database.Statuses.{has_row, to_share, shared, has_open, pending_peers}
use da_concept.Node.Manager.{get_peer, contains}
use da_concept.Node.Types.{Blob, decode, decode_all}
use da_concept.Node.World.{World}
use da_concept.Node.Sync.{metadata_of, announce_blobs}
use da_concept.Node.Sync.Announcements.Requests.{AllConnected, announcements, announcements_to}
use da_concept.Node.Sync.Announcements.{announce_blobs-sent}
use da_concept.Node.Tests.Sample.{env, row_of, world}

abbrev sharing : World
sharing = record (world (row_of (bytes 7) ∷ [])) { connected = 0 ∷ [] }

abbrev shared_blob : Blob
shared_blob = record {
  id = 7;
  content = 1 ∷ 2 ∷ 3 ∷ [];
  metadata = none;
  content_type = none;
  size = (row_of (bytes 7)).size;
  hash = some "h7";
  owner_id = 1;
  public_key = b'k' ∷ [];
  created_at = 5;
  updated_at = 5;
  deleted_at = none;
}

sharing-AllConnected : AllConnected sharing
unfolding get_peer contains
sharing-AllConnected id client e = ground arith

announce_blobs-sent_example :
    ((announce_blobs env sharing).0 ≡ ok tt)
    × ((announce_blobs env sharing).1.sent
        ≡ ("http://p", announce (some (metadata_of env shared_blob))) ∷ [])
    × ((j : Key)
        → pending_peers j (announce_blobs env sharing).1.db.sync_status
          ≡ pending_peers j sharing.db.sync_status)
    × ((announce_blobs env sharing).1.db.blobs ≡ sharing.db.blobs)
unfolding has_row to_share shared has_open decode decode_all announcements announcements_to get_peer
    pending_peers
announce_blobs-sent_example =
    announce_blobs-sent env (λ n. refl) sharing (shared_blob ∷ []) sharing-AllConnected (refl, tt)
      refl
