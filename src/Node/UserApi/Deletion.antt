-- ===== src/Node/UserApi/Deletion.antt =====
-- What a user's request to delete a blob does.
use mathlib.Core.Option.{get_or}
use da_concept.Base.{
  ℕ, ◌+◌, ◌≡◌, ◌≢◌, refl, ap, ◌∙◌, String, Bool, true, false, Option, none, some, List, [], ◌∷◌,
  ◌⊎◌, inl, inr, eq_iff, ◌==◌, if◌then◌else◌, Bool-cases, Option-cases, arith,
}
use da_concept.Base.Outcome.{Outcome, ok, err}
use da_concept.Node.Database.Row.{Key, key_eq, BlobRow, StatusRow}
use da_concept.Node.Database.Blobs.{select_live, mark_deleted}
use da_concept.Node.Database.Blobs.Laws.{select_live-mark_deleted}
use da_concept.Node.Database.Statuses.{has_row}
use da_concept.Node.Manager.{queue_blob_fetch}
use da_concept.Node.World.{Env, World, pure, throw, map_err, utc_now, query, modify_manager, ◌>>=◌}
use da_concept.Node.Types.{Blob, decode}
use da_concept.Node.Sync.{sync_blob}
use da_concept.Node.UserApi.Types.{User, FieldError, database}
use da_concept.Node.UserApi.Mutation.{completed_peers, insert_pairs, insert_selected, delete_blob}

completed_has_row :
    (blob : Key) (rows : List StatusRow) (p : String) (ps : List String)
    → completed_peers blob rows ≡ p ∷ ps
    → has_row blob p rows ≡ true
unfolding completed_peers has_row
completed_has_row blob [] p ps h = cc
completed_has_row blob (row ∷ rows) p ps h =
    ground (arith, completed_has_row blob rows p ps, eq_iff row.peer_node_id p)

-- What the INSERT of `delete_blob` does where it selects the peers `peers`.
abbrev pub inserted : List String → List StatusRow → Option (List StatusRow)
inserted [] rows = some rows
inserted (p ∷ ps) rows = none

-- The INSERT never inserts a row: it selects none, or it breaks the primary key with the first row
-- that it selects.
pub insert_selected-eq :
    (clock : ℕ) (blob : Key) (rows : List StatusRow)
    → insert_selected clock blob rows ≡ inserted (completed_peers blob rows) rows
unfolding insert_selected insert_pairs
insert_selected-eq clock blob rows = go (completed_peers blob rows) refl
  where
    go :
        (peers : List String)
        → completed_peers blob rows ≡ peers
        → insert_pairs clock blob peers rows ≡ inserted peers rows
    go [] e = refl
    go (p ∷ ps) e = rw (completed_has_row blob rows p ps e) refl

pub peers_cases :
    (xs : List String) → (xs ≡ []) ⊎ ((x : String) × (ys : List String) × (xs ≡ x ∷ ys))
peers_cases [] = inl refl
peers_cases (x ∷ xs) = inr (x, xs, refl)

abbrev pub answer : List String → Outcome FieldError Bool
answer [] = ok true
answer (p ∷ ps) = err database

module _ (env : Env) (w : World) (user : User) (blob_id : ℕ) (row : BlobRow) (blob : Blob)
    (up : env.db_fault w.ticks ≡ false)
    (live : select_live (env.bind_uuid blob_id) w.db.blobs ≡ some row)
    (decodes : decode env row ≡ some blob) where
  -- While the database answers, the owner's request hides the blob and no other, and queues it to be
  -- fetched again; it is answered with an error exactly if some peer has completed the blob, and the
  -- statuses stay as they are.
  pub delete_blob_owner :
      env.db_fault (w.ticks + 1 + 1) ≡ false
      → env.db_fault (w.ticks + 1 + 1 + 1) ≡ false
      → (blob.owner_id == user.id) ≡ true
      → ((delete_blob env (some user) blob_id w).0
          ≡ answer (completed_peers (env.bind_uuid blob_id) w.db.sync_status))
        × ((j : Key)
            → select_live j (delete_blob env (some user) blob_id w).1.db.blobs
              ≡ (if key_eq (env.bind_uuid blob_id) j then none else select_live j w.db.blobs))
        × ((delete_blob env (some user) blob_id w).1.db.sync_status ≡ w.db.sync_status)
        × ((delete_blob env (some user) blob_id w).1.manager
            ≡ queue_blob_fetch w.manager blob.id (get_or blob.hash ""))
  unfolding delete_blob ◌>>=◌ pure utc_now query map_err sync_blob modify_manager
  delete_blob_owner up2 up3 own =
      elim (peers_cases (completed_peers (env.bind_uuid blob_id) w.db.sync_status)) [
        | inl e ↦
            rw (up, live, decodes, own, up2, up3, insert_selected-eq, e)
              (refl, λ j. select_live-mark_deleted _ _ _ j w.db.blobs, refl, refl)
        | inr (p, ps, e) ↦
            rw (up, live, decodes, own, up2, up3, insert_selected-eq, e)
              (refl, λ j. select_live-mark_deleted _ _ _ j w.db.blobs, refl, refl)
      ]

-- What a deletion under `key` leaves of a table of blobs: what every other key selects.
abbrev pub Spares : Key → List BlobRow → List BlobRow → Type 0
Spares key rows rows' = (j : Key) → key_eq key j ≡ false → select_live j rows' ≡ select_live j rows

mark_deleted-Spares :
    (now clock : ℕ) (key : Key) (rows : List BlobRow)
    → Spares key rows (mark_deleted now clock key rows)
mark_deleted-Spares now clock key rows j other =
    select_live-mark_deleted now clock key j rows
    ∙ ap (λ b. if b then none else select_live j rows) other

module _ (env : Env) (w : World) (blob_id : ℕ) where
  -- What the request of the owner may change, whichever statement fails.
  owner_changes :
      (user : User) (row : BlobRow) (blob : Blob)
      → env.db_fault w.ticks ≡ false
      → select_live (env.bind_uuid blob_id) w.db.blobs ≡ some row
      → decode env row ≡ some blob
      → (blob.owner_id == user.id) ≡ true
      → Spares (env.bind_uuid blob_id) w.db.blobs (delete_blob env (some user) blob_id w).1.db.blobs
        × ((delete_blob env (some user) blob_id w).1.db.sync_status ≡ w.db.sync_status)
  unfolding delete_blob ◌>>=◌ pure utc_now query map_err sync_blob modify_manager
  owner_changes user row blob up live decodes own =
      elim (Bool-cases (env.db_fault (w.ticks + 1 + 1))) [
        | inl down2 ↦ rw (up, live, decodes, own, down2) (λ j other. refl, refl)
        | inr up2 ↦ elim (Bool-cases (env.db_fault (w.ticks + 1 + 1 + 1))) [
          | inl down3 ↦
              rw (up, live, decodes, own, up2, down3) (mark_deleted-Spares _ _ _ w.db.blobs, refl)
          | inr up3 ↦
              elim (peers_cases (completed_peers (env.bind_uuid blob_id) w.db.sync_status)) [
                | inl e ↦
                    rw (up, live, decodes, own, up2, up3, insert_selected-eq, e)
                      (mark_deleted-Spares _ _ _ w.db.blobs, refl)
                | inr (p, ps, e) ↦
                    rw (up, live, decodes, own, up2, up3, insert_selected-eq, e)
                      (mark_deleted-Spares _ _ _ w.db.blobs, refl)
              ]
        ]
      ]

  -- Whatever the database does and whoever asks, a request to delete a blob either leaves the
  -- database and the queue as they are and is not answered with true, or it is of a user who is the
  -- owner in the live row of that blob, and then every other key selects what it did and the
  -- statuses stay.
  pub delete_blob_guarded :
      (asker : Option User)
      → (((delete_blob env asker blob_id w).1.db ≡ w.db)
          × ((delete_blob env asker blob_id w).1.manager ≡ w.manager)
          × ((delete_blob env asker blob_id w).0 ≢ ok true))
        ⊎ ((user : User) × (row : BlobRow) × (blob : Blob) × (asker ≡ some user)
            × (select_live (env.bind_uuid blob_id) w.db.blobs ≡ some row)
            × (decode env row ≡ some blob)
            × ((blob.owner_id == user.id) ≡ true)
            × Spares (env.bind_uuid blob_id) w.db.blobs (delete_blob env asker blob_id w).1.db.blobs
            × ((delete_blob env asker blob_id w).1.db.sync_status ≡ w.db.sync_status))
  unfolding delete_blob ◌>>=◌ throw query
  delete_blob_guarded none = inl (refl, refl, λ e. cc)
  delete_blob_guarded (some user) = elim (Bool-cases (env.db_fault w.ticks)) [
    | inl down ↦ inl (rw down (refl, refl, λ e. cc))
    | inr up ↦ elim (Option-cases (select_live (env.bind_uuid blob_id) w.db.blobs)) [
      | inl missing ↦ inl (rw (up, missing) (refl, refl, λ e. cc))
      | inr (row, live) ↦ elim (Option-cases (decode env row)) [
        | inl broken ↦ inl (rw (up, live, broken) (refl, refl, λ e. cc))
        | inr (blob, decodes) ↦ elim (Bool-cases (blob.owner_id == user.id)) [
          | inr other ↦ inl (rw (up, live, decodes, other) (refl, refl, λ e. cc))
          | inl own ↦
              let (spared, statuses) = owner_changes user row blob up live decodes own in
              inr (user, row, blob, refl, live, decodes, own, spared, statuses)
        ]
      ]
    ]
  ]
