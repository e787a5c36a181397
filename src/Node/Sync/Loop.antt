-- ===== src/Node/Sync/Loop.antt =====
-- The endless loop of `start_sync_loop` in da-node/src/node_api/sync.rs, compared with the schedule of
-- Sync/Schedule, and how long its queue lasts.
use da_concept.Base.{
  ℕ, zero, suc, ◌*◌, ◌≤◌, ◌≡◌, ◌≢◌, refl, sym, ap, ◌∙◌, String, List, [], ◌∷◌, ◌⊎◌, inl, inr, drop,
  drop-drop, drop_all, drop_least, length, arith,
}
use mathlib.Core.Path.{subst}
use da_concept.Base.Outcome.{Outcome, ok, err, panic}
use da_concept.Node.Manager.{queue_blob_fetch, take_batch, finish}
use da_concept.Node.World.{Env, World, DaNodeError, pure, joined, continue, ◌>>=◌}
use da_concept.Node.Sync.Announcing.{announce_blobs-Quiet}
use da_concept.Node.Sync.Schedule.{
  Schedule, Step, enqueue, start, end, Reach, here, next, count, ids, IsFair, start-IsFair,
}
use da_concept.Node.Sync.Queue.{
  Running, remove_head, contains_head, ran, ran_lem, run_tasks-IsFair, process_sync_queue-IsFair,
}
use da_concept.Node.Sync.{run_tasks, pop_batch, process_sync_queue, announce_blobs, sync_rounds}

Reach-trans : {s t u : Schedule} → Reach s t → Reach t u → Reach s u
Reach-trans r here = r
Reach-trans r (next q step) = next (Reach-trans r q) step

Step-config : {s t : Schedule} → Step s t → t.manager.config ≡ s.manager.config
unfolding queue_blob_fetch take_batch finish
Step-config (enqueue s b h) = ground arith
Step-config (start s idle) = refl
Step-config (end s b h) = refl

Reach-config : {s t : Schedule} → Reach s t → t.manager.config ≡ s.manager.config
Reach-config here = refl
Reach-config (next reach step) = Step-config step ∙ Reach-config reach

module _ (env : Env) where
  run_tasks-Reach :
      (s : Schedule) (tasks : List (ℕ × String)) (w : World)
      → IsFair (Running w (ids tasks))
      → Reach s (Running w (ids tasks))
      → Reach s (Running (run_tasks env tasks w).1 [])
  unfolding run_tasks ◌>>=◌ joined pure
  run_tasks-Reach s [] w fair reach = reach
  run_tasks-Reach s ((b, h) ∷ tasks) w fair reach =
      let (e, same, fair2) = ran_lem env b h (ids tasks) w fair in
      let (e2, fair3, queue) = run_tasks-IsFair env tasks (ran env b h w).1 fair2 in
      let few : count b (b ∷ ids tasks) ≤ 1 = omega (arith, fair.once b, fair.split b) in
      let ended : Reach s (record { manager = finish w.manager b; running = ids tasks }) =
        subst (λ r. Reach s (record { manager = finish w.manager b; running = r }))
          (remove_head b (ids tasks) few)
          (next reach (end (Running w (b ∷ ids tasks)) b (contains_head b (ids tasks)))) in
      rw (e, e2)
        (run_tasks-Reach s tasks (ran env b h w).1 fair2
          (subst (λ m. Reach s (record { manager = m; running = ids tasks })) (sym same) ended))

  process_sync_queue-Reach :
      (w : World)
      → IsFair (Running w [])
      → Reach (Running w []) (Running (process_sync_queue env w).1 [])
  unfolding process_sync_queue pop_batch ◌>>=◌ pure
  process_sync_queue-Reach w fair =
      let popped : World = record w { manager = (take_batch w.manager).1 } in
      let fair2 = start-IsFair (Running w []) refl fair in
      let (e, ended, queue) = run_tasks-IsFair env (take_batch w.manager).0 popped fair2 in
      rw e (
        run_tasks-Reach (Running w []) (take_batch w.manager).0 popped fair2
          (next here (start (Running w []) refl)))

  -- One round: the queue, then the announcements.
  abbrev after_round : World → Outcome DaNodeError (Unit {0}) × World
  after_round w = announce_blobs env (process_sync_queue env w).1

  sync_rounds-suc :
      (n : ℕ) (w : World)
      → IsFair (Running w [])
      → sync_rounds env (suc n) w
        ≡ continue (after_round w).0 (λ _. sync_rounds env n) (after_round w).1
  unfolding sync_rounds ◌>>=◌
  sync_rounds-suc n w fair =
      let (e, ended, queue) = process_sync_queue-IsFair env w fair in rw e refl

  after_round-manager :
      (w : World) → (after_round w).1.manager ≡ (process_sync_queue env w).1.manager
  after_round-manager w = (announce_blobs-Quiet env).same_manager (process_sync_queue env w).1

  after_round-IsFair : (w : World) → IsFair (Running w []) → IsFair (Running (after_round w).1 [])
  after_round-IsFair w fair =
      let (e, ended, queue) = process_sync_queue-IsFair env w fair in
      subst (λ m. IsFair (record { manager = m; running = [] })) (sym (after_round-manager w)) ended

  after_round-Reach :
      (w : World) → IsFair (Running w []) → Reach (Running w []) (Running (after_round w).1 [])
  after_round-Reach w fair =
      subst (λ m. Reach (Running w []) (record { manager = m; running = [] }))
        (sym (after_round-manager w)) (process_sync_queue-Reach w fair)

  -- From a fair queue with no task running, what any number of rounds of the loop does to the manager
  -- is a path of the schedule's steps, whatever the peers answer and wherever the database fails.
  pub sync_rounds-Reach :
      (n : ℕ) (w : World)
      → IsFair (record { manager = w.manager; running = [] })
      → Reach
          (record { manager = w.manager; running = [] })
          (record { manager = (sync_rounds env n w).1.manager; running = [] })
  unfolding sync_rounds pure
  sync_rounds-Reach zero w fair = here
  sync_rounds-Reach (suc n) w fair =
      rw (sync_rounds-suc n w fair)
        (go (after_round w).0 (sync_rounds-Reach n (after_round w).1 (after_round-IsFair w fair)))
    where
      go :
          (r : Outcome DaNodeError (Unit {0}))
          → Reach
              (Running (after_round w).1 [])
              (Running (sync_rounds env n (after_round w).1).1 [])
          → Reach
              (Running w [])
              (Running (continue r (λ _. sync_rounds env n) (after_round w).1).1 [])
      go (ok u) later = Reach-trans (after_round-Reach w fair) later
      go (err e) later = after_round-Reach w fair
      go panic later = after_round-Reach w fair

  -- Every round that is done takes a batch from the queue.
  sync_rounds-drop :
      (n : ℕ) (w : World)
      → IsFair (Running w [])
      → ((e : DaNodeError) × ((sync_rounds env n w).0 ≡ err e))
        ⊎ (((sync_rounds env n w).0 ≡ ok tt)
            × ((sync_rounds env n w).1.manager.blob_queue
                ≡ drop (n * w.manager.config.max_concurrent_syncs) w.manager.blob_queue))
  unfolding sync_rounds pure
  sync_rounds-drop zero w fair =
      let nothing : 0 ≡ 0 * w.manager.config.max_concurrent_syncs = omega arith in
      inr (refl, ap (λ k. drop k w.manager.blob_queue) nothing)
  sync_rounds-drop (suc n) w fair = rw (sync_rounds-suc n w fair) (
      go (after_round w).0 ((announce_blobs-Quiet env).no_panic (process_sync_queue env w).1)
        (sync_rounds-drop n (after_round w).1 (after_round-IsFair w fair)))
    where
      k : ℕ
      k = w.manager.config.max_concurrent_syncs

      popped : (after_round w).1.manager.blob_queue ≡ drop k w.manager.blob_queue
      popped =
          let (e, ended, queue) = process_sync_queue-IsFair env w fair in
          ap (λ m. m.blob_queue) (after_round-manager w)
          ∙ queue
          ∙ drop_least _ k w.manager.blob_queue refl

      kept : (after_round w).1.manager.config.max_concurrent_syncs ≡ k
      kept = ap (λ c. c.max_concurrent_syncs) (Reach-config (after_round-Reach w fair))

      go :
          (r : Outcome DaNodeError (Unit {0}))
          → r ≢ panic
          → ((e : DaNodeError) × ((sync_rounds env n (after_round w).1).0 ≡ err e))
            ⊎ (((sync_rounds env n (after_round w).1).0 ≡ ok tt)
                × ((sync_rounds env n (after_round w).1).1.manager.blob_queue
                    ≡ drop
                        (n * (after_round w).1.manager.config.max_concurrent_syncs)
                        (after_round w).1.manager.blob_queue))
          → ((e : DaNodeError) × ((continue r (λ _. sync_rounds env n) (after_round w).1).0
                ≡ err e))
            ⊎ (((continue r (λ _. sync_rounds env n) (after_round w).1).0 ≡ ok tt)
                × ((continue r (λ _. sync_rounds env n) (after_round w).1).1.manager.blob_queue
                    ≡ drop (suc n * k) w.manager.blob_queue))
      go (ok u) quiet (inl failed) = inl failed
      go (ok u) quiet (inr (done, queue)) = inr (
        done,
        queue
            ∙ rw (kept, popped)
                (drop-drop (n * k) k (suc n * k) w.manager.blob_queue (omega arith)),
      )
      go (err e) quiet later = inl (e, refl)
      go panic quiet later = absurd (quiet refl)

  -- From a fair queue with no task running, as many rounds of the loop as it takes batches to hold
  -- the queue end, whatever the peers answer: with the error of an announcement, or with an empty
  -- queue.
  pub sync_rounds_empty :
      (n : ℕ) (w : World)
      → IsFair (record { manager = w.manager; running = [] })
      → length w.manager.blob_queue ≤ n * w.manager.config.max_concurrent_syncs
      → ((e : DaNodeError) × ((sync_rounds env n w).0 ≡ err e))
        ⊎ (((sync_rounds env n w).0 ≡ ok tt) × ((sync_rounds env n w).1.manager.blob_queue ≡ []))
  sync_rounds_empty n w fair enough = elim (sync_rounds-drop n w fair) [
    | inl failed ↦ inl failed
    | inr (done, queue) ↦ inr (done, queue ∙ drop_all _ w.manager.blob_queue enough)
  ]
