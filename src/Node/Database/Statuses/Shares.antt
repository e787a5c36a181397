-- ===== src/Node/Database/Statuses/Shares.antt =====
-- Which blobs are shared when one blob has statuses.
use da_concept.Base.{◌≡◌, refl, String, false, none, List, [], ◌∷◌, ◌++◌, arith}
use da_concept.Node.Database.Row.{Key, key_eq_iff, BlobRow, StatusRow}
use da_concept.Node.Database.Blobs.{has_id}
use da_concept.Node.Database.Statuses.{shared, to_share}
use da_concept.Node.Database.Statuses.Opened.{Opened, has_open-Opened}

module _ (blob : Key) (name : String) (names : List String) (statuses : List StatusRow)
    (opened : Opened blob (name ∷ names) statuses) where
  shared-append :
      (rows : List BlobRow) (row : BlobRow)
      → has_id blob rows ≡ false
      → row.id ≡ blob
      → row.deleted_at ≡ none
      → shared statuses (rows ++ row ∷ []) ≡ row ∷ []
  unfolding shared has_id
  shared-append [] row fresh e live = rw live (
      ground
        (arith, has_open-Opened blob row.id name names statuses opened, key_eq_iff blob row.id))
  shared-append (r ∷ rows) row fresh e live = ground (
    arith,
    has_open-Opened blob r.id name names statuses opened,
    key_eq_iff blob r.id,
    key_eq_iff r.id blob,
    shared-append rows row,
  )

  -- A new blob that has statuses, and it alone, is to be shared, and no other.
  pub to_share-append :
      (rows : List BlobRow) (row : BlobRow)
      → has_id blob rows ≡ false
      → row.id ≡ blob
      → row.deleted_at ≡ none
      → to_share statuses (rows ++ row ∷ []) ≡ row ∷ []
  unfolding to_share
  to_share-append rows row fresh e live = rw (shared-append rows row fresh e live) refl
