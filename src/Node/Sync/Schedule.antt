-- ===== src/Node/Sync/Schedule.antt =====
-- The queue of `SyncManager` (da-node/src/node_api/sync.rs) under interleaving: requests enqueue,
-- the loop starts a batch when the last one has ended, and tasks end in any order. Each step is what
-- happens under one acquisition of the manager's write lock.
use da_concept.Base.{
  ℕ, zero, suc, ◌+◌, ◌≤◌, ◌≡◌, refl, sym, ap, ◌∙◌, min, String, true, false, List, [], ◌∷◌, ◌++◌,
  length, take, drop, length-take, ◌==◌, if◌then◌else◌, arith, Bool-cases, inl, inr,
}
use da_concept.Node.Manager.{SyncManager, contains, remove, queue_blob_fetch, take_batch, finish}

abbrev pub count : ℕ → List ℕ → ℕ
count x [] = 0
count x (y ∷ ys) = let rest = count x ys in if x == y then rest + 1 else rest

abbrev pub ids : List (ℕ × String) → List ℕ
ids [] = []
ids ((blob_id, hash) ∷ rest) = blob_id ∷ ids rest

-- The manager, and the blobs whose tasks run.
pub record Schedule : Type 0 where
  pub manager : SyncManager
  pub running : List ℕ

pub data Step : Schedule → Schedule → Type 0 where
  enqueue :
      (s : Schedule) (blob_id : ℕ) (hash : String)
      → Step s (record s { manager = queue_blob_fetch s.manager blob_id hash })
  start :
      (s : Schedule)
      → s.running ≡ []
      → Step s
          (record { manager = (take_batch s.manager).1; running = ids (take_batch s.manager).0 })
  end :
      (s : Schedule) (blob_id : ℕ)
      → contains blob_id s.running ≡ true
      → Step s (record { manager = finish s.manager blob_id; running = remove blob_id s.running })

pub data Reach (s : Schedule) : Schedule → Type 0 where
  here : Reach s s
  next : {t u : Schedule} → Reach s t → Step t u → Reach s u

-- Every blob in progress is queued or running, never both and never twice; and nothing else is
-- queued or running. No more tasks run than the configuration allows.
pub record IsFair (s : Schedule) : Type 0 where
  pub once : (x : ℕ) → count x s.manager.in_progress ≤ 1
  pub split :
      (x : ℕ)
      → count x (ids s.manager.blob_queue) + count x s.running ≡ count x s.manager.in_progress
  pub bounded : length s.running ≤ s.manager.config.max_concurrent_syncs

count-append : (x : ℕ) (xs ys : List ℕ) → count x (xs ++ ys) ≡ count x xs + count x ys
count-append x [] ys = omega arith
count-append x (y ∷ xs) ys = ground (arith, count-append x xs ys)

ids-append : (xs ys : List (ℕ × String)) → ids (xs ++ ys) ≡ ids xs ++ ids ys
ids-append [] ys = refl
ids-append ((b, h) ∷ xs) ys = ap (λ t. b ∷ t) (ids-append xs ys)

length-ids : (xs : List (ℕ × String)) → length (ids xs) ≡ length xs
length-ids [] = refl
length-ids ((b, h) ∷ xs) = ap suc (length-ids xs)

take-append-drop : (n : ℕ) (xs : List (ℕ × String)) → take n xs ++ drop n xs ≡ xs
take-append-drop zero xs = refl
take-append-drop (suc n) [] = refl
take-append-drop (suc n) (x ∷ xs) = ap (λ t. x ∷ t) (take-append-drop n xs)

count_absent : (x : ℕ) (xs : List ℕ) → contains x xs ≡ false → count x xs ≡ 0
unfolding contains
count_absent x [] h = refl
count_absent x (y ∷ xs) h = ground (arith, count_absent x xs)

pub count_present : (x : ℕ) (xs : List ℕ) → contains x xs ≡ true → 1 ≤ count x xs
unfolding contains
count_present x [] h = cc
count_present x (y ∷ xs) h = ground (arith, count_present x xs)

count-remove : (x y : ℕ) (ys : List ℕ) → count x (remove y ys) ≡ (if x == y then 0 else count x ys)
unfolding remove
count-remove x y [] = ground arith
count-remove x y (z ∷ ys) = ground (arith, count-remove x y ys)

length-remove : (y : ℕ) (ys : List ℕ) → length (remove y ys) ≤ length ys
unfolding remove
length-remove y [] = omega arith
length-remove y (z ∷ ys) = ground (arith, length-remove y ys)

-- The batch and what is left of the queue are the queue in its order; the batch is as long as the
-- configuration allows and the queue has; what is in progress and the configuration stay.
pub take_batch_lem :
    (m : SyncManager)
    → ((take_batch m).0 ++ (take_batch m).1.blob_queue ≡ m.blob_queue)
      × (length (take_batch m).0 ≡ min m.config.max_concurrent_syncs (length m.blob_queue))
      × ((take_batch m).1.in_progress ≡ m.in_progress)
      × ((take_batch m).1.config ≡ m.config)
unfolding take_batch
take_batch_lem m =
    let n : ℕ = min m.config.max_concurrent_syncs (length m.blob_queue) in
    (take-append-drop n m.blob_queue, omega (arith, length-take n m.blob_queue), refl, refl)

pub enqueue-IsFair :
    (s : Schedule) (b : ℕ) (h : String)
    → IsFair s
    → IsFair (record s { manager = queue_blob_fetch s.manager b h })
unfolding queue_blob_fetch
enqueue-IsFair s b h fair = elim (Bool-cases (contains b s.manager.in_progress)) [
  | inl old ↦ rw old fair
  | inr new ↦ rw new (record {
    once = λ x. ground (arith, fair.once x, count_absent b s.manager.in_progress new);
    split = λ x.
        rw ids-append
          (ground (arith, fair.split x, count-append x (ids s.manager.blob_queue) (b ∷ [])));
    bounded = fair.bounded;
  })
]

pub start-IsFair :
    (s : Schedule)
    → s.running ≡ []
    → IsFair s
    → IsFair (record { manager = (take_batch s.manager).1; running = ids (take_batch s.manager).0 })
start-IsFair s idle fair =
    let (order, size, same, config) = take_batch_lem s.manager in
    record {
      once = λ x. rw same (fair.once x);
      split = λ x.
          let cut : count x (ids (take_batch s.manager).0)
                + count x (ids (take_batch s.manager).1.blob_queue)
              ≡ count x (ids s.manager.blob_queue) =
            sym (count-append x (ids (take_batch s.manager).0) _)
            ∙ ap (count x) (sym (ids-append (take_batch s.manager).0 _) ∙ ap ids order) in
          let all : count x (ids s.manager.blob_queue) + 0 ≡ count x s.manager.in_progress =
            rw idle at fair.split x in
          rw same (omega (arith, cut, all));
      bounded = rw config (omega (arith, size, length-ids (take_batch s.manager).0));
    }

pub end-IsFair :
    (s : Schedule) (b : ℕ)
    → contains b s.running ≡ true
    → IsFair s
    → IsFair (record { manager = finish s.manager b; running = remove b s.running })
unfolding finish
end-IsFair s b h fair = record {
  once = λ x. ground (arith, count-remove x b s.manager.in_progress, fair.once x);
  split = λ x. ground (
    arith,
    count-remove x b s.manager.in_progress,
    count-remove x b s.running,
    count_present b s.running h,
    fair.once x,
    fair.once b,
    fair.split b,
    fair.split x,
  );
  bounded = omega (arith, length-remove b s.running, fair.bounded);
}

Step-IsFair : {s t : Schedule} → IsFair s → Step s t → IsFair t
Step-IsFair fair (enqueue s b h) = enqueue-IsFair s b h fair
Step-IsFair fair (start s idle) = start-IsFair s idle fair
Step-IsFair fair (end s b h) = end-IsFair s b h fair

-- A manager with nothing queued and nothing in progress, as `SyncManager::new` makes it, is fair.
pub empty-IsFair :
    (m : SyncManager)
    → m.blob_queue ≡ []
    → m.in_progress ≡ []
    → IsFair (record { manager = m; running = [] })
empty-IsFair m no_queue no_progress = record {
  once = λ x. rw no_progress (omega arith);
  split = λ x. rw (no_queue, no_progress) refl;
  bounded = omega arith;
}

-- However requests, batches and ends of tasks interleave, a schedule that starts fair stays fair.
pub Reach-IsFair : {s t : Schedule} → IsFair s → Reach s t → IsFair t
Reach-IsFair fair here = fair
Reach-IsFair fair (next reach step) = Step-IsFair (Reach-IsFair fair reach) step
