-- ===== src/Node/Database/Statuses/Sharing.antt =====
-- Whom a blob is announced to: `get_pending_peers` of da-node/src/node_api/sync.rs.
use da_concept.Base.{
  ◌≡◌, refl, String, Bool, true, false, ◌||◌, Option, some, List, [], ◌∷◌, str_eq, eq_iff, arith,
}
use da_concept.Node.Database.Row.{Key, key_eq_iff, Status, pending, completed, failed, StatusRow}
use da_concept.Node.Database.Statuses.{is_open, has_row, pending_peers}
use da_concept.Node.Database.Statuses.Laws.{UniquePairs, status_at}

abbrev pub is_among : String → List String → Bool
is_among x [] = false
is_among x (y ∷ ys) = str_eq y x || is_among x ys

-- Whether there is a status and it is not completed.
abbrev pub waits : Option Status → Bool
waits (some pending) = true
waits (some failed) = true
waits _ = false

pub no_row :
    (blob : Key) (peer : String) (rows : List StatusRow)
    → has_row blob peer rows ≡ false
    → is_among peer (pending_peers blob rows) ≡ false
unfolding has_row pending_peers
no_row blob peer [] h = refl
no_row blob peer (row ∷ rows) h = ground (arith, no_row blob peer rows)

open_waits : (row : StatusRow) → waits (some row.sync_status) ≡ is_open row
open_waits row = go row.sync_status
  where
    go : (s : Status) → waits (some s) ≡ elim s [ completed ↦ false | _ ↦ true ]
    go pending = refl
    go completed = refl
    go failed = refl

-- Where a blob and peer have one row at most, a peer is selected to hear of a blob exactly if the
-- blob's status there is pending or failed.
pub is_among-pending_peers :
    (blob : Key) (peer : String) (rows : List StatusRow)
    → UniquePairs rows
    → is_among peer (pending_peers blob rows) ≡ waits (status_at blob peer rows)
unfolding pending_peers status_at
is_among-pending_peers blob peer [] u = refl
is_among-pending_peers blob peer (row ∷ rows) (fresh, u) = ground (
  arith,
  open_waits row,
  no_row row.blob_id row.peer_node_id rows,
  key_eq_iff row.blob_id blob,
  eq_iff row.peer_node_id peer,
  is_among-pending_peers blob peer rows u,
)
