-- ===== src/Node/Sync/Queue.antt =====
-- `process_sync_queue` of da-node/src/node_api/sync.rs ends every task that it starts.
use da_concept.Base.{
  ℕ, ◌≤◌, ◌≡◌, ◌≢◌, refl, sym, ap, ◌∙◌, String, Bool, true, false, List, [], ◌∷◌, drop, min, length,
  arith,
}
use mathlib.Core.Path.{subst}
use da_concept.Base.Outcome.{Outcome, ok, err, panic}
use da_concept.Node.Manager.{SyncManager, contains, remove, take_batch, finish}
use da_concept.Node.World.{Env, World, DaNodeError, pure, joined, modify_manager, ◌>>=◌}
use da_concept.Node.Sync.Quiet.{fetch_and_store_blob-Quiet}
use da_concept.Node.Sync.Schedule.{Schedule, count, ids, IsFair, start-IsFair, end-IsFair}
use da_concept.Node.Sync.{task_end, run_tasks, pop_batch, process_sync_queue, fetch_and_store_blob}

remove_absent : (x : ℕ) (xs : List ℕ) → count x xs ≡ 0 → remove x xs ≡ xs
unfolding remove
remove_absent x [] h = refl
remove_absent x (y ∷ ys) h = ground (arith, remove_absent x ys)

pub remove_head : (x : ℕ) (xs : List ℕ) → count x (x ∷ xs) ≤ 1 → remove x (x ∷ xs) ≡ xs
unfolding remove
remove_head x xs h = ground (arith, remove_absent x xs)

pub contains_head : (x : ℕ) (xs : List ℕ) → contains x (x ∷ xs) ≡ true
unfolding contains
contains_head x xs = ground arith

abbrev pub Running : World → List ℕ → Schedule
Running w running = record { manager = w.manager; running = running }

-- The first task ends, and the rest run on.
pub first_ended :
    (w : World) (b : ℕ) (running : List ℕ)
    → IsFair (Running w (b ∷ running))
    → IsFair (record { manager = finish w.manager b; running = running })
first_ended w b running fair =
    let few : count b (b ∷ running) ≤ 1 = omega (arith, fair.once b, fair.split b) in
    subst (λ r. IsFair (record { manager = finish w.manager b; running = r }))
      (remove_head b running few)
      (end-IsFair (Running w (b ∷ running)) b (contains_head b running) fair)

finish-blob_queue : (m : SyncManager) (b : ℕ) → (finish m b).blob_queue ≡ m.blob_queue
unfolding finish
finish-blob_queue m b = refl

module _ (env : Env) where
  -- A task that ran without a panic.
  pub task_end-Quiet :
      (b : ℕ) (r : Outcome DaNodeError (Unit {0})) (w : World)
      → r ≢ panic
      → ((task_end env b r w).0 ≡ ok false) × ((task_end env b r w).1.manager ≡ finish w.manager b)
  unfolding task_end ◌>>=◌ modify_manager pure
  task_end-Quiet b (ok u) w h = (refl, refl)
  task_end-Quiet b (err e) w h = (refl, refl)
  task_end-Quiet b panic w h = absurd (h refl)

  -- What a task of the batch leaves.
  abbrev pub ran : ℕ → String → World → Outcome DaNodeError Bool × World
  ran b h w = let (r, w1) = fetch_and_store_blob env b h w in task_end env b r w1

  -- The first task of a batch ends without a panic, is no longer in progress, and the rest run on.
  pub ran_lem :
      (b : ℕ) (h : String) (running : List ℕ) (w : World)
      → IsFair (Running w (b ∷ running))
      → ((ran b h w).0 ≡ ok false)
        × ((ran b h w).1.manager ≡ finish w.manager b)
        × IsFair (Running (ran b h w).1 running)
  ran_lem b h running w fair =
      let quiet = fetch_and_store_blob-Quiet env b h in
      let (e, m) =
        task_end-Quiet b (fetch_and_store_blob env b h w).0 (fetch_and_store_blob env b h w).1
          (quiet.no_panic w) in
      let same : (ran b h w).1.manager ≡ finish w.manager b =
        m ∙ ap (λ m. finish m b) (quiet.same_manager w) in
      (
        e,
        same,
        subst (λ m. IsFair (record { manager = m; running = running })) (sym same)
            (first_ended w b running fair),
      )

  pub run_tasks-IsFair :
      (tasks : List (ℕ × String)) (w : World)
      → IsFair (Running w (ids tasks))
      → ((run_tasks env tasks w).0 ≡ ok false)
        × IsFair (Running (run_tasks env tasks w).1 [])
        × ((run_tasks env tasks w).1.manager.blob_queue ≡ w.manager.blob_queue)
  unfolding run_tasks ◌>>=◌ joined pure
  run_tasks-IsFair [] w fair = (refl, fair, refl)
  run_tasks-IsFair ((b, h) ∷ tasks) w fair =
      let (e, same, fair2) = ran_lem b h (ids tasks) w fair in
      let (e2, fair3, queue) = run_tasks-IsFair tasks (ran b h w).1 fair2 in
      rw (e, e2) (refl, fair3, queue ∙ ap (λ m. m.blob_queue) same ∙ finish-blob_queue w.manager b)

  -- From a fair queue with no task running, one round over the queue succeeds, whatever the peers
  -- answer and wherever the database fails: the queue loses a batch, every task of the batch ends, and
  -- the queue is fair with no task running.
  pub process_sync_queue-IsFair :
      (w : World)
      → IsFair (record { manager = w.manager; running = [] })
      → ((process_sync_queue env w).0 ≡ ok tt)
        × IsFair (record { manager = (process_sync_queue env w).1.manager; running = [] })
        × ((process_sync_queue env w).1.manager.blob_queue
            ≡ drop
                (min w.manager.config.max_concurrent_syncs (length w.manager.blob_queue))
                w.manager.blob_queue)
  unfolding process_sync_queue pop_batch ◌>>=◌ pure take_batch
  process_sync_queue-IsFair w fair =
      let popped : World = record w { manager = (take_batch w.manager).1 } in
      let (e, ended, queue) =
        run_tasks-IsFair (take_batch w.manager).0 popped (start-IsFair (Running w []) refl fair) in
      rw e (refl, ended, queue)
