-- ===== src/Node/UserApi/Refusals.antt =====
-- What `add_blob` of da-node/src/user_api/mod.rs leaves when it is answered with an error.
use da_concept.Base.{◌+◌, ◌≡◌, refl, String, Option, none, some, inl, inr, Bool-cases, Option-cases}
use da_concept.Base.Outcome.{err, Outcome-cases}
use da_concept.Crypto.Crates.{Crates}
use da_concept.Crypto.PrivateKey
use da_concept.Crypto.PublicKey
use da_concept.Crypto.Elgamal
use da_concept.Node.Database.Blobs.{insert}
use da_concept.Node.World.{Env, World, pure, throw, query, map_err, modify_manager, ◌>>=◌}
use da_concept.Node.Sync.{sync_blob}
use da_concept.Node.UserApi.Types.{User, BlobInput, FieldError}
use da_concept.Node.UserApi.Web.{Web, IsSound, drawing, fresh_uuid}
use da_concept.Node.UserApi.Mutation.{blob_row, add_blob}
use da_concept.Node.UserApi.Content.{decode-blob_row}

module _ (env : Env) (web : Web) (crates : Crates) (secret : String) (sound : IsSound env web) where
  -- With sound services, wherever it fails, a request to add a blob that is answered with an error
  -- leaves the database and the queue as they were.
  pub add_blob_err :
      (user : Option User) (input : BlobInput) (w : World) (e : FieldError)
      → (add_blob env web crates secret user input w).0 ≡ err e
      → ((add_blob env web crates secret user input w).1.db ≡ w.db)
        × ((add_blob env web crates secret user input w).1.manager ≡ w.manager)
  unfolding add_blob drawing fresh_uuid query map_err sync_blob modify_manager throw ◌>>=◌ pure
  add_blob_err none input w e h = (refl, refl)
  add_blob_err (some user) input w e h =
      elim (Outcome-cases (PrivateKey.try_from crates user.private_key)) [
        | inr (inl (x, k)) ↦ rw k (refl, refl)
        | inr (inr k) ↦ cc (rw k at h)
        | inl (key, k) ↦ elim (Outcome-cases (Elgamal.encrypt crates input.content key w.ticks)) [
          | inr (inl (x, c)) ↦ rw (k, c) (refl, refl)
          | inr (inr c) ↦ cc (rw (k, c) at h)
          | inl ((content, rng), c) ↦ elim (Bool-cases (env.db_fault (rng + 1))) [
            | inl down ↦ rw (k, c, down) (refl, refl)
            | inr up ↦
                let row =
                  blob_row env web crates secret (env.now (rng + 1)) (web.new_v4 rng) user input
                    (PublicKey.get_encoded_public_key crates key.public_key) content in
                elim (Option-cases (insert row w.db.blobs)) [
                  | inl taken ↦ rw (k, c, up, taken) (refl, refl)
                  | inr (rows, stored) ↦ cc (
                      rw
                        (
                          k,
                          c,
                          up,
                          stored,
                          decode-blob_row env web crates sound secret (env.now (rng + 1))
                              (web.new_v4 rng) user input
                              (PublicKey.get_encoded_public_key crates key.public_key) content,
                        )
                        at h)
                ]
          ]
        ]
      ]
