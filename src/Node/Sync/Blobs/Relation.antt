-- ===== src/Node/Sync/Blobs/Relation.antt =====
-- What it means that the sync manager stores a blob.
use da_concept.Base.{◌≡◌, refl, ◌∙◌, String, none, some, [], ◌∷◌, ◌++◌, ◌⊎◌}
use da_concept.Node.Database.Row.{BlobRow}
use da_concept.Node.World.{Env, World, M, DaNodeError, pure, ◌>>=◌}
use da_concept.Node.World.Ensures.{Ensures, bind_changes}
use da_concept.Node.Sync.SameBlobs.{SameBlobs}

module _ (env : Env) where
  -- The row that was stored carries a hash that was asked for: its content has it, or its peer
  -- claims it.
  pub record IsVerified (expected_hash : String) (row : BlobRow) : Type 0 where
    pub hash : String
    pub claimed : row.hash ≡ some hash
    pub matches : (env.sha256_hex row.content ≡ expected_hash) ⊎ (hash ≡ expected_hash)
    pub live : row.deleted_at ≡ none

  -- The table is left alone, or one verified row is added at its end.
  pub data Stores (expected_hash : String) (v w : World) : Type 0 where
    nothing : w.db.blobs ≡ v.db.blobs → Stores expected_hash v w
    one :
        (row : BlobRow)
        → IsVerified expected_hash row
        → w.db.blobs ≡ v.db.blobs ++ row ∷ []
        → Stores expected_hash v w

  pub Stores-after : (h : String) (u v w : World) → SameBlobs u v → Stores h v w → Stores h u w
  Stores-after h u v w s (nothing e) = nothing (e ∙ s.blobs)
  Stores-after h u v w s (one row ok_row e) = one row ok_row (rw (s.blobs) at e)

  pub Stores-before : (h : String) (u v w : World) → Stores h u v → SameBlobs v w → Stores h u w
  Stores-before h u v w (nothing e) s = nothing (s.blobs ∙ e)
  Stores-before h u v w (one row ok_row e) s = one row ok_row (s.blobs ∙ e)

  module _ {h : String} {A B : Type 0} (m : M DaNodeError A) (f : A → M DaNodeError B) where
    -- Before the row is stored, and after.
    pub Stores-bind :
        Ensures SameBlobs m → ((a : A) → Ensures (Stores h) (f a)) → Ensures (Stores h) (m >>= f)
    Stores-bind km kf = record {
      at = λ w.
          bind_changes (λ u. Stores h w u) m f w (nothing (km.at w).blobs)
            (λ a _. Stores-after h w (m w).1 _ (km.at w) ((kf a).at (m w).1));
    }

    pub Stores-bind_stored :
        Ensures (Stores h) m → ((a : A) → Ensures SameBlobs (f a)) → Ensures (Stores h) (m >>= f)
    Stores-bind_stored km kf = record {
      at = λ w.
          bind_changes (λ u. Stores h w u) m f w (km.at w)
            (λ a _. Stores-before h w (m w).1 _ (km.at w) ((kf a).at (m w).1));
    }

  pub Stores-pure :
      {h : String} {A : Type 0} (a : A) → Ensures (Stores h) (pure {E = DaNodeError} a)
  unfolding pure
  Stores-pure a = record { at = λ w. nothing refl }
