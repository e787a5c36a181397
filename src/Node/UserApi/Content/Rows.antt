-- ===== src/Node/UserApi/Content/Rows.antt =====
-- One more row in the table of blobs, read as the API reads it.
use da_concept.Base.{◌≡◌, refl, ap, Text, false, Option, none, some, List, [], ◌∷◌, ◌++◌, arith}
use da_concept.Base.Outcome.{ok, bind-ok}
use da_concept.Crypto.Crates.{Crates}
use da_concept.Crypto.Types.{PrivateKey}
use da_concept.Node.Database.Row.{Key, key_eq_iff, BlobRow}
use da_concept.Node.Database.Blobs.{has_id, insert, select_owned}
use da_concept.Node.World.{Env}
use da_concept.Node.Types.{Blob, decode, decode_all, consed}
use da_concept.Node.UserApi.Types.{BlobSchema, blob_schema_from}
use da_concept.Node.UserApi.Opening.{shown, opened}

pub insert_fresh :
    (row : BlobRow) (rows : List BlobRow)
    → has_id row.id rows ≡ false
    → insert row rows ≡ some (rows ++ row ∷ [])
unfolding insert
insert_fresh row rows h = rw h refl

pub select_owned-append :
    (owner : Key) (rows : List BlobRow) (row : BlobRow)
    → row.owner_id ≡ owner
    → row.deleted_at ≡ none
    → select_owned owner (rows ++ row ∷ []) ≡ select_owned owner rows ++ row ∷ []
unfolding select_owned
select_owned-append owner [] row o d = rw d (ground (arith, key_eq_iff row.owner_id owner))
select_owned-append owner (r ∷ rows) row o d =
    ground (arith, select_owned-append owner rows row o d)

abbrev pub snoc : Option (List Blob) → Option Blob → Option (List Blob)
snoc (some blobs) (some blob) = some (blobs ++ blob ∷ [])
snoc (some blobs) none = none
snoc none o = none

pub decode_all-append :
    (env : Env) (rows : List BlobRow) (row : BlobRow)
    → decode_all env (rows ++ row ∷ []) ≡ snoc (decode_all env rows) (decode env row)
unfolding decode_all
decode_all-append env [] row = go (decode env row)
  where
    go : (o : Option Blob) → consed env o (some []) ≡ snoc (some []) o
    go none = refl
    go (some blob) = refl
decode_all-append env (r ∷ rows) row =
    rw (decode_all-append env rows row) (go (decode env r) (decode_all env rows) (decode env row))
  where
    go :
        (o : Option Blob) (os : Option (List Blob)) (p : Option Blob)
        → consed env o (snoc os p) ≡ snoc (consed env o os) p
    go none os p = refl
    go (some b) none p = refl
    go (some b) (some bs) none = refl
    go (some b) (some bs) (some q) = refl

module _ (crates : Crates) (key : PrivateKey) (pubkey : Text) where
  pub opened-append :
      (blobs : List Blob) (blob : Blob) (seen : List BlobSchema) (content : Text)
      → opened crates key pubkey blobs ≡ ok seen
      → shown crates key pubkey blob ≡ ok content
      → opened crates key pubkey (blobs ++ blob ∷ [])
        ≡ ok (seen ++ blob_schema_from blob content ∷ [])
  unfolding opened
  opened-append [] blob seen content e s =
      let none_seen : [] ≡ seen = cc in
      rw s (ap (λ bs. ok (bs ++ blob_schema_from blob content ∷ [])) none_seen)
  opened-append (b ∷ blobs) blob seen content e s =
      let (first, e1, e2) = bind-ok (shown crates key pubkey b) _ e in
      let (others, e3, e4) = bind-ok (opened crates key pubkey blobs) _ e2 in
      let all : blob_schema_from b first ∷ others ≡ seen = cc in
      rw (e1, opened-append blobs blob others content e3 s)
        (ap (λ bs. ok (bs ++ blob_schema_from blob content ∷ [])) all)
