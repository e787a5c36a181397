-- ===== src/Node/Types.antt =====
-- `Blob` of da-node/src/user_api/types.rs, as sqlx decodes it from a row.
use da_concept.Base.{Text, ℕ, String, Option, none, some, List, [], ◌∷◌}
use da_concept.Base.Int.{ℤ}
use da_concept.Node.Database.Row.{BlobRow}
use da_concept.Node.World.{Env}

pub record Blob : Type 0 where
  pub id : ℕ
  pub content : List ℕ
  pub metadata : Option String
  pub content_type : Option String
  pub size : ℤ
  pub hash : Option String
  pub owner_id : ℕ
  pub public_key : Text
  pub created_at : ℕ
  pub updated_at : ℕ
  pub deleted_at : Option ℕ

module _ (env : Env) where
  abbrev decoded : Option ℕ → Option ℕ → BlobRow → Option Blob
  decoded (some id) (some owner_id) row = some (record {
    id = id;
    content = row.content;
    metadata = row.metadata;
    content_type = row.content_type;
    size = row.size;
    hash = row.hash;
    owner_id = owner_id;
    public_key = row.public_key;
    created_at = row.created_at;
    updated_at = row.updated_at;
    deleted_at = row.deleted_at;
  })
  decoded _ _ row = none

  -- `FromRow`; `none` is a decoding error.
  unfoldable pub decode : BlobRow → Option Blob
  decode row = decoded (env.decode_uuid row.id) (env.decode_uuid row.owner_id) row

  abbrev pub consed : Option Blob → Option (List Blob) → Option (List Blob)
  consed (some blob) (some blobs) = some (blob ∷ blobs)
  consed _ _ = none

  -- `fetch_all` fails if any row does.
  unfoldable pub decode_all : List BlobRow → Option (List Blob)
  unfolding decode
  decode_all [] = some []
  decode_all (row ∷ rows) = consed (decode row) (decode_all rows)
