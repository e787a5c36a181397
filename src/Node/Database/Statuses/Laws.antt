-- ===== src/Node/Database/Statuses/Laws.antt =====
-- The statements on `sync_status` against one another.
use da_concept.Base.{
  ℕ, ◌≡◌, refl, String, true, false, ◌&&◌, ◌||◌, Option, none, some, List, [], ◌∷◌, ◌++◌, str_eq,
  eq_iff, if◌then◌else◌, arith,
}
use da_concept.Node.Database.Row.{Key, key_eq, key_eq_iff, Status, pending, completed, StatusRow}
use da_concept.Node.Database.Statuses.{
  is_at, update, attempted, succeeded, has_row, new_row, upsert_pending,
}

-- No two rows have the same blob and peer.
abbrev pub UniquePairs : List StatusRow → Type 0
UniquePairs [] = Unit
UniquePairs (row ∷ rows) = (has_row row.blob_id row.peer_node_id rows ≡ false) × UniquePairs rows

-- The status of a blob at a peer.
unfoldable pub status_at : Key → String → List StatusRow → Option Status
status_at blob peer [] = none
status_at blob peer (row ∷ rows) =
    if is_at blob peer row then some row.sync_status else status_at blob peer rows

-- A change of a row that leaves its key alone and writes the status `s`.
pub record SetsStatus (s : Status) (change : StatusRow → StatusRow) : Type 0 where
  pub same_blob : (row : StatusRow) → (change row).blob_id ≡ row.blob_id
  pub same_peer : (row : StatusRow) → (change row).peer_node_id ≡ row.peer_node_id
  pub sets : (row : StatusRow) → (change row).sync_status ≡ s

pub attempted-SetsStatus : (s : Status) (now : ℕ) → SetsStatus s (attempted s now)
attempted-SetsStatus s now = record {
  same_blob = λ row. refl;
  same_peer = λ row. refl;
  sets = λ row. refl;
}

pub succeeded-SetsStatus : (now : ℕ) → SetsStatus completed (succeeded now)
succeeded-SetsStatus now = record {
  same_blob = λ row. refl;
  same_peer = λ row. refl;
  sets = λ row. refl;
}

has_row-status_at :
    (blob : Key) (peer : String) (rows : List StatusRow)
    → has_row blob peer rows ≡ elim (status_at blob peer rows) [ none ↦ false | some s ↦ true ]
unfolding has_row status_at
has_row-status_at blob peer [] = refl
has_row-status_at blob peer (row ∷ rows) = ground (arith, has_row-status_at blob peer rows)

module _ {s : Status} {change : StatusRow → StatusRow} (c : SetsStatus s change) where
  -- An UPDATE that sets a status and no key writes the status of its blob and peer, if they have
  -- a row, and of no other.
  pub status_at-update :
      (clock : ℕ) (b j : Key) (p q : String) (rows : List StatusRow)
      → status_at j q (update change clock b p rows)
        ≡ (if key_eq b j && str_eq p q && has_row b p rows then some s else status_at j q rows)
  unfolding status_at update has_row
  status_at-update clock b j p q [] = ground arith
  status_at-update clock b j p q (row ∷ rows) = ground (
    arith,
    c.same_blob row,
    c.same_peer row,
    c.sets row,
    key_eq_iff row.blob_id b,
    key_eq_iff row.blob_id j,
    key_eq_iff b j,
    eq_iff row.peer_node_id p,
    eq_iff row.peer_node_id q,
    eq_iff p q,
    status_at-update clock b j p q rows,
  )

  has_row-update :
      (clock : ℕ) (b j : Key) (p q : String) (rows : List StatusRow)
      → has_row j q (update change clock b p rows) ≡ has_row j q rows
  unfolding update has_row
  has_row-update clock b j p q [] = refl
  has_row-update clock b j p q (row ∷ rows) =
      ground (arith, c.same_blob row, c.same_peer row, has_row-update clock b j p q rows)

  pub update-UniquePairs :
      (clock : ℕ) (b : Key) (p : String) (rows : List StatusRow)
      → UniquePairs rows
      → UniquePairs (update change clock b p rows)
  unfolding update
  update-UniquePairs clock b p [] u = tt
  update-UniquePairs clock b p (row ∷ rows) (fresh, u) = ground (
    arith,
    c.same_blob row,
    c.same_peer row,
    has_row-update clock b row.blob_id p row.peer_node_id rows,
    update-UniquePairs clock b p rows u,
  )

status_at-append :
    (j : Key) (q : String) (rows : List StatusRow) (row : StatusRow)
    → status_at j q (rows ++ row ∷ []) ≡ (
        if has_row j q rows
        then status_at j q rows
        else if is_at j q row
        then some row.sync_status
        else none)
unfolding status_at has_row
status_at-append j q [] row = ground arith
status_at-append j q (r ∷ rows) row = ground (arith, status_at-append j q rows row)

-- Starting a synchronisation leaves the blob pending at the peer, whether or not a row was there,
-- and touches no other.
pub status_at-upsert_pending :
    (now1 now2 clock : ℕ) (b j : Key) (p q : String) (rows : List StatusRow)
    → status_at j q (upsert_pending now1 now2 clock b p rows)
      ≡ (if key_eq b j && str_eq p q then some pending else status_at j q rows)
unfolding upsert_pending
status_at-upsert_pending now1 now2 clock b j p q rows = ground (
  arith,
  status_at-update (attempted-SetsStatus pending now2) clock b j p q rows,
  status_at-append j q rows (new_row now1 clock b p),
  has_row-status_at j q rows,
  key_eq_iff b j,
  eq_iff p q,
)

-- A synchronisation that starts and then succeeds leaves the blob completed at the peer, and changes
-- no other status.
pub status_at-synchronised :
    (now1 now2 now3 clock1 clock2 : ℕ) (b j : Key) (p q : String) (rows : List StatusRow)
    → status_at j q (update (succeeded now3) clock2 b p (upsert_pending now1 now2 clock1 b p rows))
      ≡ (if key_eq b j && str_eq p q then some completed else status_at j q rows)
status_at-synchronised now1 now2 now3 clock1 clock2 b j p q rows =
    let started : List StatusRow = upsert_pending now1 now2 clock1 b p rows in
    ground (
      arith,
      status_at-update (succeeded-SetsStatus now3) clock2 b j p q started,
      status_at-upsert_pending now1 now2 clock1 b j p q rows,
      status_at-upsert_pending now1 now2 clock1 b b p p rows,
      has_row-status_at b p started,
      key_eq_iff b b,
      eq_iff p p,
    )

pub has_row-append :
    (b : Key) (p : String) (rows : List StatusRow) (row : StatusRow)
    → has_row b p (rows ++ row ∷ []) ≡ (has_row b p rows || is_at b p row)
unfolding has_row
has_row-append b p [] row = ground arith
has_row-append b p (r ∷ rows) row = ground (arith, has_row-append b p rows row)

append-UniquePairs :
    (rows : List StatusRow) (row : StatusRow)
    → has_row row.blob_id row.peer_node_id rows ≡ false
    → UniquePairs rows
    → UniquePairs (rows ++ row ∷ [])
unfolding has_row
append-UniquePairs [] row h u = (refl, tt)
append-UniquePairs (r ∷ rows) row h (fresh, u) = ground (
  arith,
  has_row-append r.blob_id r.peer_node_id rows row,
  key_eq_iff r.blob_id row.blob_id,
  key_eq_iff row.blob_id r.blob_id,
  eq_iff r.peer_node_id row.peer_node_id,
  eq_iff row.peer_node_id r.peer_node_id,
  append-UniquePairs rows row,
)

pub upsert_pending-UniquePairs :
    (now1 now2 clock : ℕ) (b : Key) (p : String) (rows : List StatusRow)
    → UniquePairs rows
    → UniquePairs (upsert_pending now1 now2 clock b p rows)
unfolding upsert_pending
upsert_pending-UniquePairs now1 now2 clock b p rows u = ground (
  arith,
  update-UniquePairs (attempted-SetsStatus pending now2) clock b p rows u,
  append-UniquePairs rows (new_row now1 clock b p),
)
