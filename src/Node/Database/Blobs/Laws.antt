-- ===== src/Node/Database/Blobs/Laws.antt =====
-- The statements on `blobs` against one another.
use da_concept.Base.{
  ℕ, ◌≡◌, refl, true, false, ◌&&◌, ◌||◌, none, some, List, [], ◌∷◌, ◌++◌, if◌then◌else◌, arith,
}
use da_concept.Node.Database.Row.{Key, key_eq, key_eq_iff, BlobRow}
use da_concept.Node.Database.Blobs.{is_live, select_live, exists_live, has_id, insert, mark_deleted}

-- No two rows have the same id.
abbrev pub UniqueIds : List BlobRow → Type 0
UniqueIds [] = Unit
UniqueIds (row ∷ rows) = (has_id row.id rows ≡ false) × UniqueIds rows

-- Selecting and testing agree.
pub exists_live-select_live :
    (id : Key) (rows : List BlobRow)
    → exists_live id rows ≡ elim (select_live id rows) [ none ↦ false | some row ↦ true ]
unfolding exists_live select_live
exists_live-select_live id [] = refl
exists_live-select_live id (row ∷ rows) = ground (arith, exists_live-select_live id rows)

has_id-append :
    (id : Key) (rows : List BlobRow) (row : BlobRow)
    → has_id id (rows ++ row ∷ []) ≡ (has_id id rows || key_eq row.id id)
unfolding has_id
has_id-append id [] row = ground arith
has_id-append id (r ∷ rows) row = ground (arith, has_id-append id rows row)

append-UniqueIds :
    (rows : List BlobRow) (row : BlobRow)
    → has_id row.id rows ≡ false
    → UniqueIds rows
    → UniqueIds (rows ++ row ∷ [])
unfolding has_id
append-UniqueIds [] row h u = (refl, tt)
append-UniqueIds (r ∷ rows) row h (fresh, u) = ground (
  arith,
  has_id-append r.id rows row,
  key_eq_iff r.id row.id,
  key_eq_iff row.id r.id,
  append-UniqueIds rows row,
)

-- INSERT keeps the ids unique.
pub insert-UniqueIds :
    (row : BlobRow) (rows rows' : List BlobRow)
    → insert row rows ≡ some rows'
    → UniqueIds rows
    → UniqueIds rows'
unfolding insert
insert-UniqueIds row rows rows' e u = ground (arith, append-UniqueIds rows row)

pub exists_live-append :
    (id : Key) (rows : List BlobRow) (row : BlobRow)
    → exists_live id (rows ++ row ∷ []) ≡ (exists_live id rows || (key_eq row.id id && is_live row))
unfolding exists_live
exists_live-append id [] row = ground arith
exists_live-append id (r ∷ rows) row = ground (arith, exists_live-append id rows row)

-- After an INSERT a live row of that id is there, and other ids have what they had.
pub exists_live-insert :
    (row : BlobRow) (rows rows' : List BlobRow) (id : Key)
    → insert row rows ≡ some rows'
    → exists_live id rows' ≡ (exists_live id rows || (key_eq row.id id && is_live row))
unfolding insert
exists_live-insert row rows rows' id e = ground (arith, exists_live-append id rows row)

pub has_id-mark_deleted :
    (now clock : ℕ) (id j : Key) (rows : List BlobRow)
    → has_id j (mark_deleted now clock id rows) ≡ has_id j rows
unfolding has_id mark_deleted
has_id-mark_deleted now clock id j [] = refl
has_id-mark_deleted now clock id j (row ∷ rows) =
    ground (arith, has_id-mark_deleted now clock id j rows)

pub mark_deleted-UniqueIds :
    (now clock : ℕ) (id : Key) (rows : List BlobRow)
    → UniqueIds rows
    → UniqueIds (mark_deleted now clock id rows)
unfolding mark_deleted
mark_deleted-UniqueIds now clock id [] u = tt
mark_deleted-UniqueIds now clock id (row ∷ rows) (fresh, u) = ground (
  arith,
  has_id-mark_deleted now clock id row.id rows,
  mark_deleted-UniqueIds now clock id rows u,
)

-- A soft delete hides the id and no other.
pub select_live-mark_deleted :
    (now clock : ℕ) (id j : Key) (rows : List BlobRow)
    → select_live j (mark_deleted now clock id rows)
      ≡ (if key_eq id j then none else select_live j rows)
unfolding select_live mark_deleted
select_live-mark_deleted now clock id j [] = ground arith
select_live-mark_deleted now clock id j (row ∷ rows) = ground (
  arith,
  key_eq_iff row.id id,
  key_eq_iff row.id j,
  key_eq_iff id j,
  select_live-mark_deleted now clock id j rows,
)
