-- ===== src/Node/UserApi/Opening.antt =====
-- What `UserSchema::blobs` of da-node/src/user_api/types.rs shows of the blobs that it selected.
use da_concept.Base.{Text, List, [], ◌∷◌, text_eq, if◌then◌else◌}
use da_concept.Base.Outcome.{ok, ◌>>=◌}
use da_concept.Crypto.Crates.{Crates, Result}
use da_concept.Crypto.Types.{PrivateKey}
use da_concept.Crypto.Elgamal
use da_concept.Node.Types.{Blob}
use da_concept.Node.UserApi.Types.{BlobSchema, blob_schema_from}

module _ (crates : Crates) (private_key : PrivateKey) (related_pubkey : Text) where
  -- A blob under the user's key is decrypted.
  unfoldable pub shown : Blob → Result crates Text
  shown blob =
      if text_eq blob.public_key related_pubkey
      then Elgamal.decrypt crates blob.content private_key
      else ok (crates.encode blob.content)

  -- The loop over the blobs.
  unfoldable pub opened : List Blob → Result crates (List BlobSchema)
  unfolding shown
  opened [] = ok []
  opened (blob ∷ blobs) = do
    content ← shown blob
    rest ← opened blobs
    ok (blob_schema_from blob content ∷ rest)
