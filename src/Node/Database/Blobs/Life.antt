-- ===== src/Node/Database/Blobs/Life.antt =====
-- The life of a blob in the table `blobs`: its id is free, then live, then deleted.
use da_concept.Base.{
  ℕ, ◌≤◌, ◌≡◌, refl, true, false, ◌&&◌, none, some, List, [], ◌∷◌, ◌++◌, if◌then◌else◌, arith,
}
use da_concept.Node.Database.Row.{Key, key_eq, key_eq_iff, BlobRow}
use da_concept.Node.Database.Blobs.{is_live, select_live, has_id, insert, mark_deleted}
use da_concept.Node.Database.Blobs.Laws.{UniqueIds}

-- 0 while no row has the id, 1 while its row is live, 2 once it is deleted.
unfoldable pub age : Key → List BlobRow → ℕ
age id [] = 0
age id (row ∷ rows) =
    let rest = age id rows in if key_eq row.id id then (if is_live row then 1 else 2) else rest

age-has_id : (id : Key) (rows : List BlobRow) → has_id id rows ≡ false → age id rows ≡ 0
unfolding age has_id
age-has_id id [] h = refl
age-has_id id (row ∷ rows) h = ground (arith, age-has_id id rows)

age-append :
    (id : Key) (rows : List BlobRow) (row : BlobRow)
    → has_id row.id rows ≡ false
    → is_live row ≡ true
    → age id (rows ++ row ∷ []) ≡ (if key_eq row.id id then 1 else age id rows)
unfolding age has_id
age-append id [] row h live = ground arith
age-append id (r ∷ rows) row h live = ground (
  arith,
  age-append id rows row,
  key_eq_iff r.id row.id,
  key_eq_iff r.id id,
  key_eq_iff row.id id,
)

is_live-none : (row : BlobRow) → row.deleted_at ≡ none → is_live row ≡ true
is_live-none row h = rw h refl

free_below :
    (i id : Key) (rows : List BlobRow)
    → has_id i rows ≡ false
    → key_eq i id ≡ true
    → age id rows ≡ 0
free_below i id rows h e = ground (arith, age-has_id i rows, key_eq_iff i id)

-- An INSERT of a live row takes its id from free to live, and leaves the others.
pub age-insert :
    (id : Key) (row : BlobRow) (rows rows' : List BlobRow)
    → row.deleted_at ≡ none
    → insert row rows ≡ some rows'
    → (age id rows' ≡ (if key_eq row.id id then 1 else age id rows)) × (age id rows ≤ age id rows')
unfolding insert
age-insert id row rows rows' live e =
    ground (arith, age-append id rows row, is_live-none row live, free_below row.id id rows)

-- A soft delete takes an id that is not free to deleted, and leaves the others.
pub age-mark_deleted :
    (now clock : ℕ) (id j : Key) (rows : List BlobRow)
    → (age j (mark_deleted now clock id rows)
        ≡ (if key_eq id j && has_id j rows then 2 else age j rows))
      × (age j rows ≤ age j (mark_deleted now clock id rows))
unfolding age mark_deleted has_id
age-mark_deleted now clock id j [] = ground arith
age-mark_deleted now clock id j (row ∷ rows) = ground (
  arith,
  key_eq_iff row.id id,
  key_eq_iff row.id j,
  key_eq_iff id j,
  age-mark_deleted now clock id j rows,
)

absent_select :
    (id : Key) (rows : List BlobRow) → has_id id rows ≡ false → select_live id rows ≡ none
unfolding has_id select_live
absent_select id [] h = refl
absent_select id (row ∷ rows) h = ground (arith, absent_select id rows)

-- A deleted blob cannot be selected.
pub select_live-age :
    (id : Key) (rows : List BlobRow) → UniqueIds rows → age id rows ≡ 2 → select_live id rows ≡ none
unfolding age select_live
select_live-age id [] u h = refl
select_live-age id (row ∷ rows) (fresh, u) h =
    ground (arith, select_live-age id rows u, absent_select id rows, key_eq_iff row.id id)

pub age_bound : (id : Key) (rows : List BlobRow) → age id rows ≤ 2
unfolding age
age_bound id [] = omega arith
age_bound id (row ∷ rows) = ground (arith, age_bound id rows)
