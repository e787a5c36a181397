-- ===== src/Node/Tests/Content.antt =====
-- A blob that is added and listed, at a concrete input.
use da_concept.Base.{true}
use da_concept.Base.{◌≡◌, refl, Text, none, some, [], ◌∷◌, ◌++◌, arith}
use da_concept.Base.Outcome.{ok, err}
use da_concept.Crypto.Std.{is_utf8, chunks}
use da_concept.Crypto.Elgamal
use da_concept.Crypto.PrivateKey
use da_concept.Crypto.KeyPair.{key_of, key_of-IsKey, try_from-key_of}
use da_concept.Crypto.Tests.Sample.{crates, crates-IsLawful, crates-IsAvailable}
use da_concept.Node.Database.Row.{bytes}
use da_concept.Node.Database.Blobs.{has_id, select_owned}
use da_concept.Node.World.{Env, World, query, ◌>>=◌}
use da_concept.Node.UserApi.Web.{IsSound, drawing, fresh_uuid}
use da_concept.Node.UserApi.Refusals.{add_blob_err}
use da_concept.Node.Types.{decode_all}
use da_concept.Node.UserApi.Types.{User, database, BlobInput, BlobSchema, new_user_schema}
use da_concept.Node.UserApi.Mutation.{add_blob}
use da_concept.Node.UserApi.Opening.{opened}
use da_concept.Node.UserApi.Query.{user_blobs}
use da_concept.Node.UserApi.Content.{IsPlain, IsUp, user_blobs-add_blob}
use da_concept.Node.Tests.Sample.{env, row_of, world}
use da_concept.Node.Tests.Services.{web, web-IsSound}

abbrev pub owner : User
owner = record {
  id = 2;
  username = "u";
  password_hash = "p";
  private_key = PrivateKey.get_encoded_private_key crates (key_of 300);
  email = none;
  created_at = 5;
  updated_at = 5;
}

abbrev pub input : BlobInput
input = record {
  content = b'h' ∷ b'e' ∷ b'l' ∷ b'l' ∷ b'o' ∷ [];
  metadata = none;
  content_type = none;
}

-- A node with a blob of another user.
abbrev before : World
before = world (row_of (bytes 7) ∷ [])

before-IsUp : IsUp env web before
unfolding has_id
before-IsUp = record { answers = λ n. refl; fresh = λ n. ground arith }

pub input-IsPlain : IsPlain input.content
unfolding is_utf8
input-IsPlain = record {
  bytes = omega arith;
  short = omega arith;
  utf8 = refl;
  nul_free = omega arith;
}

none_listed : decode_all env (select_owned (env.bind_uuid owner.id) before.db.blobs) ≡ some []
unfolding decode_all select_owned
none_listed = refl

none_opened : (pubkey : Text) → opened crates (key_of 300) pubkey [] ≡ ok []
unfolding opened
none_opened pubkey = refl

user_blobs-add_blob_example :
    (schema : BlobSchema) × (schema.content ≡ input.content)
    × ((add_blob env web crates "s" (some owner) input before).0 ≡ ok schema)
    × ((user_blobs env crates
          (some owner)
          (new_user_schema owner)
          (add_blob env web crates "s" (some owner) input before).1).0
        ≡ ok ([] ++ schema ∷ []))
user_blobs-add_blob_example =
    user_blobs-add_blob env web crates web-IsSound crates-IsLawful crates-IsAvailable "s" before
      before-IsUp owner (key_of 300) (key_of-IsKey 300) (try_from-key_of crates crates-IsLawful 300)
      input input-IsPlain [] [] none_listed (none_opened _)

-- A node whose database fails, and an empty blob.
abbrev broken : Env
broken = record env { db_fault = λ n. true }

abbrev empty : BlobInput
empty = record { content = []; metadata = none; content_type = none }

refused : (add_blob broken web crates "s" (some owner) empty before).0 ≡ err database
unfolding add_blob drawing fresh_uuid query ◌>>=◌ Elgamal.encrypt Elgamal.encrypt_chunks
    Elgamal.store_all chunks
refused = rw (try_from-key_of crates crates-IsLawful 300) refl

broken-IsSound : IsSound broken web
broken-IsSound = record {
  decode-bind = web-IsSound.decode-bind;
  verify-hash = web-IsSound.verify-hash;
  decode-encode = web-IsSound.decode-encode;
  timestamp-add_days = web-IsSound.timestamp-add_days;
}

add_blob_err_example :
    ((add_blob broken web crates "s" (some owner) empty before).1.db ≡ before.db)
    × ((add_blob broken web crates "s" (some owner) empty before).1.manager ≡ before.manager)
add_blob_err_example =
    add_blob_err broken web crates "s" broken-IsSound (some owner) empty before database refused
