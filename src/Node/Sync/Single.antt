-- ===== src/Node/Sync/Single.antt =====
-- A round of `process_sync_queue` of da-node/src/node_api/sync.rs over a queue with one blob.
use da_concept.Base.{ℕ, ◌≤◌, ◌≡◌, refl, min, String, true, [], ◌∷◌, ◌==◌, ==_iff, arith}
use da_concept.Base.Outcome.{ok}
use da_concept.Node.Manager.{remove, take_batch, finish}
use da_concept.Node.World.{Env, World, pure, joined, modify_manager, ◌>>=◌}
use da_concept.Node.Sync.{task_end, run_tasks, pop_batch, process_sync_queue, fetch_and_store_blob}
use da_concept.Node.Sync.Quiet.{fetch_and_store_blob-Quiet}

module _ (env : Env) (w : World) (id : ℕ) (h : String)
    (room : 1 ≤ w.manager.config.max_concurrent_syncs) where
  -- The worlds in which the blob is queued, and in which its task runs.
  abbrev pub queued : World
  queued = record w {
    manager = record w.manager { blob_queue = (id, h) ∷ []; in_progress = id ∷ [] };
  }

  abbrev pub tasked : World
  tasked = record w { manager = record w.manager { blob_queue = []; in_progress = id ∷ [] } }

  taken : take_batch queued.manager ≡ ((id, h) ∷ [], tasked.manager)
  unfolding take_batch
  taken =
      let one : min w.manager.config.max_concurrent_syncs 1 ≡ 1 = omega (arith, room) in rw one refl

  -- What the round does once its task has returned.
  pub process_sync_queue_single :
      (fetch_and_store_blob env id h tasked).0 ≡ ok tt
      → process_sync_queue env queued ≡ (
        ok tt,
        record (fetch_and_store_blob env id h tasked).1 {
          manager = record w.manager { blob_queue = []; in_progress = [] };
        },
      )
  unfolding process_sync_queue pop_batch run_tasks joined task_end modify_manager finish remove
      ◌>>=◌ pure
  process_sync_queue_single done =
      let same : (id == id) ≡ true = (==_iff id id).1 refl in
      rw (taken, done, (fetch_and_store_blob-Quiet env id h).same_manager tasked, same) refl
