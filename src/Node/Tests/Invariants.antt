-- ===== src/Node/Tests/Invariants.antt =====
-- The invariants of a node at concrete inputs.
use da_concept.Node.Tests.Sample.{env, metadata, row_of, manager, world}
use da_concept.Base.{◌≡◌, refl, none, some, [], ◌∷◌}
use da_concept.Crypto.Tests.Sample.{crates}
use da_concept.Node.Database.Blobs.Life.{age}
use da_concept.Node.UserApi.Types.{User}
use da_concept.Node.Invariant.Mutations.{Request, after, mutation-WellFormed}
use da_concept.Node.System.{looped, here, next, Reach-deleted}
use da_concept.Node.Tests.Services.{web}
use da_concept.Node.Proto.{announce}
use da_concept.Node.Database.Row.{text}
use da_concept.Node.Database.Blobs.{select_live, has_id}
use da_concept.Node.Database.Statuses.{has_row}
use da_concept.Node.World.{World}
use da_concept.Node.Server.{sync}
use da_concept.Node.Sync.{start_sync_loop}
use da_concept.Node.Invariant.{WellFormed}
use da_concept.Node.Invariant.Keys.{HasKeys}
use da_concept.Node.Invariant.Requests.{sync-WellFormed}
use da_concept.Node.Tests.Cases.{text_world, text_world-WellFormed}

sync-WellFormed_example :
    WellFormed [] (sync env manager.config (some (announce (some metadata))) text_world).1
sync-WellFormed_example =
    sync-WellFormed env manager.config [] (some (announce (some metadata))) text_world
      text_world-WellFormed

abbrev user : User
user = record {
  id = 1;
  username = "u";
  password_hash = "p";
  private_key = [];
  email = none;
  created_at = 5;
  updated_at = 5;
}

mutation-WellFormed_example :
    WellFormed [] (after env web crates "s" (Request.delete_blob (some user) 7) text_world)
mutation-WellFormed_example =
    mutation-WellFormed env web crates "s" [] (Request.delete_blob (some user) 7) text_world
      text_world-WellFormed

-- A world whose blob is deleted, and its next loop.
abbrev deleted_world : World
deleted_world = world (record (row_of (text "7")) { deleted_at = some 9 } ∷ [])

deleted_world-HasKeys : HasKeys deleted_world
unfolding has_id has_row
deleted_world-HasKeys = record { ids = (refl, tt); pairs = (refl, tt); accounts = tt }

deleted : age (text "7") deleted_world.db.blobs ≡ 2
unfolding age
deleted = refl

Reach-deleted_example :
    (age (text "7") (start_sync_loop env 2 deleted_world).1.db.blobs ≡ 2)
    × (select_live (text "7") (start_sync_loop env 2 deleted_world).1.db.blobs ≡ none)
Reach-deleted_example =
    Reach-deleted env manager.config web crates "s" (next here (looped 2 refl))
      deleted_world-HasKeys (text "7") deleted
