-- ===== src/Node/Database/Statuses.antt =====
-- The statements on the table `sync_status`.
pub mod Laws
pub mod Sharing
pub mod Attempts
pub mod Opened
pub mod Shares
use da_concept.Base.{
  ℕ, String, Bool, true, false, not, ◌&&◌, ◌||◌, Option, none, some, List, [], ◌∷◌, ◌++◌, take,
  str_eq, if◌then◌else◌,
}
use da_concept.Node.Database.Row.{
  Key, key_eq, BlobRow, Status, pending, completed, failed, StatusRow,
}
use da_concept.Node.Database.Blobs.{is_live}

-- blob_id = ? AND peer_node_id = ?
abbrev pub is_at : Key → String → StatusRow → Bool
is_at blob peer row = key_eq row.blob_id blob && str_eq row.peer_node_id peer

-- sync_status != 'completed'
abbrev pub is_open : StatusRow → Bool
is_open row = elim row.sync_status [ completed ↦ false | _ ↦ true ]

-- UPDATE sync_status SET … WHERE blob_id = ? AND peer_node_id = ?. What is set is `change`; the
-- trigger writes the time `clock`.
unfoldable pub update : (StatusRow → StatusRow) → ℕ → Key → String → List StatusRow → List StatusRow
update change clock blob peer [] = []
update change clock blob peer (row ∷ rows) =
    let rest = update change clock blob peer rows in
    if is_at blob peer row then record (change row) { updated_at = clock } ∷ rest else row ∷ rest

-- sync_status = s, last_sync_attempt = ?
abbrev pub attempted : Status → ℕ → StatusRow → StatusRow
attempted s now row = record row { sync_status = s; last_sync_attempt = some now }

-- sync_status = 'completed', last_sync_attempt = ?, last_successful_sync = ?
abbrev pub succeeded : ℕ → StatusRow → StatusRow
succeeded now row = record row {
  sync_status = completed;
  last_sync_attempt = some now;
  last_successful_sync = some now;
}

unfoldable pub has_row : Key → String → List StatusRow → Bool
has_row blob peer [] = false
has_row blob peer (row ∷ rows) = is_at blob peer row || has_row blob peer rows

-- The row that is inserted for a first attempt.
abbrev pub new_row : ℕ → ℕ → Key → String → StatusRow
new_row now clock blob peer = record {
  blob_id = blob;
  peer_node_id = peer;
  sync_status = pending;
  last_sync_attempt = some now;
  last_successful_sync = none;
  retry_count = 0;
  created_at = clock;
  updated_at = clock;
}

-- INSERT INTO sync_status … VALUES (?, ?, 'pending', now1) ON CONFLICT … DO UPDATE SET
-- sync_status = 'pending', last_sync_attempt = now2
unfoldable pub upsert_pending : ℕ → ℕ → ℕ → Key → String → List StatusRow → List StatusRow
upsert_pending now1 now2 clock blob peer rows =
    if has_row blob peer rows
    then update (attempted pending now2) clock blob peer rows
    else rows ++ new_row now1 clock blob peer ∷ []

-- SELECT peer_node_id FROM sync_status WHERE blob_id = ? AND sync_status != 'completed'
unfoldable pub pending_peers : Key → List StatusRow → List String
pending_peers blob [] = []
pending_peers blob (row ∷ rows) =
    let rest = pending_peers blob rows in
    if key_eq row.blob_id blob && is_open row then row.peer_node_id ∷ rest else rest

-- SELECT … FROM sync_status WHERE blob_id = ?
unfoldable pub of_blob : Key → List StatusRow → List StatusRow
of_blob blob [] = []
of_blob blob (row ∷ rows) =
    let rest = of_blob blob rows in if key_eq row.blob_id blob then row ∷ rest else rest

unfoldable pub has_open : Key → List StatusRow → Bool
has_open blob [] = false
has_open blob (row ∷ rows) = (key_eq row.blob_id blob && is_open row) || has_open blob rows

unfoldable pub shared : List StatusRow → List BlobRow → List BlobRow
shared statuses [] = []
shared statuses (row ∷ rows) =
    let rest = shared statuses rows in
    if is_live row && has_open row.id statuses then row ∷ rest else rest

-- SELECT b.* FROM blobs b WHERE b.deleted_at IS NULL AND EXISTS (…) LIMIT 100
unfoldable pub to_share : List StatusRow → List BlobRow → List BlobRow
unfolding shared has_open
to_share statuses rows = take 100 (shared statuses rows)
