-- ===== src/Node/Database/Statuses/Attempts.antt =====
-- The peers that are to hear of a blob, across an UPDATE that notes an attempt.
use da_concept.Base.{ℕ, ◌≡◌, refl, String, true, false, List, [], ◌∷◌, eq_iff, arith}
use da_concept.Node.Database.Row.{Key, key_eq_iff, pending, StatusRow}
use da_concept.Node.Database.Statuses.{update, attempted, has_row, pending_peers}
use da_concept.Node.Database.Statuses.Laws.{UniquePairs}
use da_concept.Node.Database.Statuses.Sharing.{is_among, no_row}

update_absent :
    (change : StatusRow → StatusRow) (clock : ℕ) (b : Key) (p : String) (rows : List StatusRow)
    → has_row b p rows ≡ false
    → update change clock b p rows ≡ rows
unfolding update has_row
update_absent change clock b p [] h = refl
update_absent change clock b p (row ∷ rows) h = ground (arith, update_absent change clock b p rows)

-- An attempt at a peer that is to hear of a blob changes no selection of peers.
pub pending_peers-update :
    (now clock : ℕ) (b j : Key) (p : String) (rows : List StatusRow)
    → UniquePairs rows
    → is_among p (pending_peers b rows) ≡ true
    → pending_peers j (update (attempted pending now) clock b p rows) ≡ pending_peers j rows
unfolding update pending_peers
pending_peers-update now clock b j p [] u h = refl
pending_peers-update now clock b j p (row ∷ rows) (fresh, u) h = ground (
  arith,
  update_absent (attempted pending now) clock b p rows,
  no_row b p rows,
  key_eq_iff row.blob_id b,
  eq_iff row.peer_node_id p,
  pending_peers-update now clock b j p rows u,
)
