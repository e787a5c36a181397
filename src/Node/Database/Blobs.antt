-- ===== src/Node/Database/Blobs.antt =====
-- The statements on the table `blobs`.
pub mod Laws
pub mod Life
use da_concept.Base.{
  ℕ, zero, suc, ◌+◌, String, Bool, true, false, not, ◌&&◌, ◌||◌, Option, none, some, List, [], ◌∷◌,
  ◌++◌, if◌then◌else◌,
}
use da_concept.Base.Int.{ℤ, pos, ◌+ℤ◌}
use da_concept.Node.Database.Row.{Key, key_eq, BlobRow}

-- `deleted_at IS NULL`
abbrev pub is_live : BlobRow → Bool
is_live row = elim row.deleted_at [ none ↦ true | some t ↦ false ]

-- SELECT * FROM blobs WHERE id = ? AND deleted_at IS NULL, the first row.
unfoldable pub select_live : Key → List BlobRow → Option BlobRow
select_live id [] = none
select_live id (row ∷ rows) =
    if key_eq row.id id && is_live row then some row else select_live id rows

-- SELECT EXISTS(SELECT 1 FROM blobs WHERE id = ? AND deleted_at IS NULL)
unfoldable pub exists_live : Key → List BlobRow → Bool
exists_live id [] = false
exists_live id (row ∷ rows) = (key_eq row.id id && is_live row) || exists_live id rows

-- Whether the primary key is taken, also by a deleted row.
unfoldable pub has_id : Key → List BlobRow → Bool
has_id id [] = false
has_id id (row ∷ rows) = key_eq row.id id || has_id id rows

-- INSERT INTO blobs
unfoldable pub insert : BlobRow → List BlobRow → Option (List BlobRow)
insert row rows = if has_id row.id rows then none else some (rows ++ row ∷ [])

-- UPDATE blobs SET deleted_at = ? WHERE id = ?, with the trigger at the time `clock`.
unfoldable pub mark_deleted : ℕ → ℕ → Key → List BlobRow → List BlobRow
mark_deleted now clock id [] = []
mark_deleted now clock id (row ∷ rows) =
    let rest = mark_deleted now clock id rows in
    if key_eq row.id id
    then record row { deleted_at = some now; updated_at = clock } ∷ rest
    else row ∷ rest

-- SELECT COUNT(*) FROM blobs WHERE deleted_at IS NULL
unfoldable pub count_live : List BlobRow → ℕ
count_live [] = 0
count_live (row ∷ rows) = let rest = count_live rows in if is_live row then rest + 1 else rest

-- SELECT COALESCE(SUM(size), 0) FROM blobs WHERE deleted_at IS NULL
unfoldable pub sum_live : List BlobRow → ℤ
sum_live [] = pos 0
sum_live (row ∷ rows) = let rest = sum_live rows in if is_live row then row.size +ℤ rest else rest

-- SELECT * FROM blobs WHERE deleted_at IS NULL
unfoldable pub select_all : List BlobRow → List BlobRow
select_all [] = []
select_all (row ∷ rows) = let rest = select_all rows in if is_live row then row ∷ rest else rest

-- SELECT * FROM blobs WHERE owner_id = ? AND deleted_at IS NULL
unfoldable pub select_owned : Key → List BlobRow → List BlobRow
select_owned owner [] = []
select_owned owner (row ∷ rows) =
    let rest = select_owned owner rows in
    if key_eq row.owner_id owner && is_live row then row ∷ rest else rest

abbrev pub is_key_among : Key → List Key → Bool
is_key_among key [] = false
is_key_among key (k ∷ keys) = key_eq k key || is_key_among key keys

-- SELECT * FROM blobs WHERE id IN (…) AND deleted_at IS NULL
unfoldable pub select_among : List Key → List BlobRow → List BlobRow
select_among keys [] = []
select_among keys (row ∷ rows) =
    let rest = select_among keys rows in
    if is_key_among row.id keys && is_live row then row ∷ rest else rest
