-- ===== src/Node/Tests/Queue.antt =====
-- The queue at concrete inputs.
use da_concept.Node.Tests.Sample.{env, world}
use da_concept.Base.{◌≡◌, refl, [], length, min, arith}
use da_concept.Base.Outcome.{ok, err}
use da_concept.Base.{◌*◌, ◌⊎◌}
use da_concept.Node.World.{DaNodeError}
use da_concept.Node.Sync.{sync_rounds}
use da_concept.Node.Sync.Loop.{sync_rounds-Reach, sync_rounds_empty}
use da_concept.Node.Manager.{queue_blob_fetch, take_batch, contains}
use da_concept.Node.World.{World}
use da_concept.Node.Sync.{fetch_and_store_blob, start_sync_loop}
use da_concept.Node.Sync.Blobs.Relation.{Stores}
use da_concept.Node.Sync.Blobs.{fetch_and_store_blob-Stores}
use da_concept.Node.Sync.Schedule.{
  Schedule, Step, enqueue, start, Reach, here, next, IsFair, empty-IsFair, Reach-IsFair,
  take_batch_lem,
}
use da_concept.Node.Sync.{process_sync_queue}
use da_concept.Node.Sync.Queue.{process_sync_queue-IsFair}
use da_concept.Base.{drop, ◌≤◌}
use da_concept.Node.Tests.Cases.{idle, queued, idle-IsFair}

fetch_and_store_blob-Stores_example :
    Stores env "h7" (world []) (fetch_and_store_blob env 7 "h7" (world [])).1
fetch_and_store_blob-Stores_example = fetch_and_store_blob-Stores env "h7" 7 (world [])

abbrev started : Schedule
started = record {
  manager = (take_batch queued.manager).1;
  running = da_concept.Node.Sync.Schedule.ids (take_batch queued.manager).0;
}

run : Reach idle started
run = next (next here (enqueue idle 7 "h7")) (start queued refl)

Reach-IsFair_example : IsFair started
Reach-IsFair_example = Reach-IsFair idle-IsFair run

process_sync_queue-IsFair_example :
    ((process_sync_queue env (record (world []) { manager = queued.manager })).0 ≡ ok tt)
    × IsFair (record {
      manager = (process_sync_queue env (record (world []) { manager = queued.manager })).1.manager;
      running = [];
    })
    × ((process_sync_queue env
          (record (world []) { manager = queued.manager })).1.manager.blob_queue
        ≡ drop
            (min queued.manager.config.max_concurrent_syncs (length queued.manager.blob_queue))
            queued.manager.blob_queue)
process_sync_queue-IsFair_example =
    process_sync_queue-IsFair env (record (world []) { manager = queued.manager })
      (Reach-IsFair idle-IsFair (next here (enqueue idle 7 "h7")))

-- A node with one blob queued.
abbrev queued_world : World
queued_world = record (world []) { manager = queued.manager }

sync_rounds-Reach_example :
    Reach
      (record { manager = queued.manager; running = [] })
      (record { manager = (sync_rounds env 2 queued_world).1.manager; running = [] })
sync_rounds-Reach_example =
    sync_rounds-Reach env 2 queued_world
      (Reach-IsFair idle-IsFair (next here (enqueue idle 7 "h7")))

one_batch : length queued.manager.blob_queue ≤ 1 * queued.manager.config.max_concurrent_syncs
unfolding queue_blob_fetch contains
one_batch = omega arith

sync_rounds_empty_example :
    ((e : DaNodeError) × ((sync_rounds env 1 queued_world).0 ≡ err e))
    ⊎ (((sync_rounds env 1 queued_world).0 ≡ ok tt)
        × ((sync_rounds env 1 queued_world).1.manager.blob_queue ≡ []))
sync_rounds_empty_example =
    sync_rounds_empty env 1 queued_world
      (Reach-IsFair idle-IsFair (next here (enqueue idle 7 "h7"))) one_batch
