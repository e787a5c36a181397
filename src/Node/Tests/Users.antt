-- ===== src/Node/Tests/Users.antt =====
-- Requests of users at concrete inputs.
use da_concept.Base.{ℕ, ◌≢◌, ◌⊎◌, ◌==◌, true, ◌≡◌, refl, none, some, [], ◌∷◌, if◌then◌else◌}
use da_concept.Base.Outcome.{ok, err}
use da_concept.Node.Database.Row.{Key, bytes, key_eq, BlobRow, completed}
use da_concept.Node.Database.Blobs.{select_live}
use da_concept.Node.Manager.{queue_blob_fetch}
use da_concept.Node.World.{World}
use da_concept.Node.Types.{Blob, decode}
use da_concept.Node.UserApi.Types.{User, database}
use da_concept.Node.UserApi.Mutation.{completed_peers, delete_blob}
use da_concept.Node.UserApi.Deletion.{answer, Spares, delete_blob_owner, delete_blob_guarded}
use da_concept.Node.Tests.Sample.{env, row_of, status_row, world}

abbrev pub user_of : ℕ → User
user_of id = record {
  id = id;
  username = "u";
  password_hash = "";
  private_key = [];
  email = none;
  created_at = 5;
  updated_at = 5;
}

abbrev shared_world : World
shared_world = record (world (row_of (bytes 7) ∷ [])) {
  db = record {
    blobs = row_of (bytes 7) ∷ [];
    sync_status = record status_row { sync_status = completed } ∷ [];
    users = [];
  };
}

abbrev blob : Blob
blob = record {
  id = 7;
  content = 1 ∷ 2 ∷ 3 ∷ [];
  metadata = none;
  content_type = none;
  size = (row_of (bytes 7)).size;
  hash = some "h7";
  owner_id = 1;
  public_key = b'k' ∷ [];
  created_at = 5;
  updated_at = 5;
  deleted_at = none;
}

selects : select_live (bytes 7) shared_world.db.blobs ≡ some (row_of (bytes 7))
unfolding select_live
selects = refl

decodes : decode env (row_of (bytes 7)) ≡ some blob
unfolding decode
decodes = refl

-- The owner of a blob that a peer has is told that the deletion failed.
shared_fails : answer (completed_peers (bytes 7) shared_world.db.sync_status) ≡ err database
unfolding completed_peers
shared_fails = refl

delete_blob_owner_example :
    ((delete_blob env (some (user_of 1)) 7 shared_world).0
      ≡ answer (completed_peers (bytes 7) shared_world.db.sync_status))
    × ((j : Key)
        → select_live j (delete_blob env (some (user_of 1)) 7 shared_world).1.db.blobs
          ≡ (if key_eq (bytes 7) j then none else select_live j shared_world.db.blobs))
    × ((delete_blob env (some (user_of 1)) 7 shared_world).1.db.sync_status
        ≡ shared_world.db.sync_status)
    × ((delete_blob env (some (user_of 1)) 7 shared_world).1.manager
        ≡ queue_blob_fetch shared_world.manager 7 "h7")
delete_blob_owner_example =
    delete_blob_owner env shared_world (user_of 1) 7 (row_of (bytes 7)) blob refl selects decodes
      refl refl refl

-- The request of another user.
delete_blob_guarded_example :
    (((delete_blob env (some (user_of 2)) 7 shared_world).1.db ≡ shared_world.db)
      × ((delete_blob env (some (user_of 2)) 7 shared_world).1.manager ≡ shared_world.manager)
      × ((delete_blob env (some (user_of 2)) 7 shared_world).0 ≢ ok true))
    ⊎ ((user : User) × (row : BlobRow) × (found : Blob) × (some (user_of 2) ≡ some user)
        × (select_live (bytes 7) shared_world.db.blobs ≡ some row)
        × (decode env row ≡ some found)
        × ((found.owner_id == user.id) ≡ true)
        × Spares
            (bytes 7)
            shared_world.db.blobs
            (delete_blob env (some (user_of 2)) 7 shared_world).1.db.blobs
        × ((delete_blob env (some (user_of 2)) 7 shared_world).1.db.sync_status
            ≡ shared_world.db.sync_status))
delete_blob_guarded_example = delete_blob_guarded env shared_world 7 (some (user_of 2))
