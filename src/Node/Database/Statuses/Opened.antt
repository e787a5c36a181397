-- ===== src/Node/Database/Statuses/Opened.antt =====
-- The statuses of one blob, which is pending at some peers.
use da_concept.Base.{
  ℕ, ◌≡◌, refl, ap, ◌∙◌, String, Bool, true, false, ◌||◌, List, [], ◌∷◌, ◌++◌, All, All-append,
  str_eq, arith,
}
use da_concept.Node.Database.Row.{Key, key_eq, key_eq_iff, StatusRow}
use da_concept.Node.Database.Statuses.{
  is_open, has_row, new_row, upsert_pending, pending_peers, has_open,
}
use da_concept.Node.Database.Statuses.Laws.{UniquePairs, has_row-append, upsert_pending-UniquePairs}
use da_concept.Node.Database.Statuses.Sharing.{is_among}

-- All rows are of the blob, which is pending at the peers that are named.
pub record Opened (blob : Key) (names : List String) (rows : List StatusRow) : Type 0 where
  pub only : All (λ row. row.blob_id ≡ blob) rows
  pub pends : pending_peers blob rows ≡ names
  pub rows_of : (peer : String) → has_row blob peer rows ≡ is_among peer names
  pub unique : UniquePairs rows

pub Opened-nil : (blob : Key) → Opened blob [] []
unfolding pending_peers has_row
Opened-nil blob = record { only = tt; pends = refl; rows_of = λ peer. refl; unique = tt }

pending_peers-append :
    (blob : Key) (rows : List StatusRow) (row : StatusRow)
    → row.blob_id ≡ blob
    → is_open row ≡ true
    → pending_peers blob (rows ++ row ∷ []) ≡ pending_peers blob rows ++ row.peer_node_id ∷ []
unfolding pending_peers
pending_peers-append blob [] row e o = ground (arith, key_eq_iff row.blob_id blob)
pending_peers-append blob (r ∷ rows) row e o =
    ground (arith, pending_peers-append blob rows row e o)

pub is_among-append :
    (x y : String) (xs : List String) → is_among x (xs ++ y ∷ []) ≡ (is_among x xs || str_eq y x)
is_among-append x y [] = ground arith
is_among-append x y (z ∷ xs) = ground (arith, is_among-append x y xs)

-- A first attempt at one more peer.
pub upsert_pending-Opened :
    (now1 now2 clock : ℕ) (blob : Key) (peer : String) (names : List String) (rows : List StatusRow)
    → is_among peer names ≡ false
    → Opened blob names rows
    → Opened blob (names ++ peer ∷ []) (upsert_pending now1 now2 clock blob peer rows)
unfolding upsert_pending
upsert_pending-Opened now1 now2 clock blob peer names rows fresh opened =
    let row : StatusRow = new_row now1 clock blob peer in
    let absent : has_row blob peer rows ≡ false = opened.rows_of peer ∙ fresh in
    let kept = upsert_pending-UniquePairs now1 now2 clock blob peer rows opened.unique in
    rw absent (record {
      only = All-append _ rows (row ∷ []) opened.only (refl, tt);
      pends =
          pending_peers-append blob rows row refl refl ∙ ap (λ ns. ns ++ peer ∷ []) opened.pends;
      rows_of = λ p. ground (
        arith,
        has_row-append blob p rows row,
        is_among-append p peer names,
        opened.rows_of p,
        key_eq_iff blob blob,
      );
      unique = rw absent at kept;
    })

has_open_elsewhere :
    (blob j : Key) (rows : List StatusRow)
    → key_eq blob j ≡ false
    → All (λ row. row.blob_id ≡ blob) rows
    → has_open j rows ≡ false
unfolding has_open
has_open_elsewhere blob j [] differ only = refl
has_open_elsewhere blob j (row ∷ rows) differ (here, only) = ground (
  arith,
  here,
  key_eq_iff row.blob_id j,
  key_eq_iff blob j,
  has_open_elsewhere blob j rows differ only,
)

abbrev some_of : List String → Bool
some_of [] = false
some_of (n ∷ ns) = true

has_open-pending_peers :
    (blob : Key) (rows : List StatusRow) → has_open blob rows ≡ some_of (pending_peers blob rows)
unfolding has_open pending_peers
has_open-pending_peers blob [] = refl
has_open-pending_peers blob (row ∷ rows) = ground (arith, has_open-pending_peers blob rows)

-- The blob is to be shared if some peer is named, and no other is.
pub has_open-Opened :
    (blob j : Key) (name : String) (names : List String) (rows : List StatusRow)
    → Opened blob (name ∷ names) rows
    → has_open j rows ≡ key_eq blob j
has_open-Opened blob j name names rows opened = ground (
  arith,
  key_eq_iff blob j,
  has_open_elsewhere blob j rows,
  has_open-pending_peers blob rows,
  opened.only,
  opened.pends,
)
