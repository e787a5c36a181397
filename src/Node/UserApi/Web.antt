-- ===== src/Node/UserApi/Web.antt =====
-- What the user API calls and does not implement: the crates uuid, argon2, chrono and jsonwebtoken;
-- and how it calls the crate `crypto`.
use da_concept.Base.{ℕ, ◌+◌, ◌*◌, ◌≤◌, ◌≡◌, String, Bool, true, Option, none, some, List}
use da_concept.Base.Outcome.{Outcome, ok, err, panic, unwrap, ◌>>=◌}
use da_concept.Crypto.Crates.{Crates, Result}
use da_concept.Node.World.{Env, World, M, pure, throw, tick}
use da_concept.Node.UserApi.Types.{Claims, FieldError, crypto_failed}

pub record Web : Type 0 where
  -- `Uuid::new_v4`, in the n-th interaction.
  pub new_v4 : ℕ → ℕ
  -- Argon2's text of a password under a salt made of these bytes, whether a text is such a hash, and
  -- whether a password is the one of a hash.
  pub hash_password : String → List ℕ → Option String
  pub is_hash : String → Bool
  pub verify_password : String → String → Bool
  -- A time some days later, and its Unix timestamp.
  pub add_days : ℕ → ℕ → ℕ
  pub timestamp : ℕ → ℕ
  -- The token of claims under a secret; the claims of a token, which is refused if it was not made
  -- under the secret, or if it has expired by more than the leeway by the time given first.
  pub encode_jwt : String → Claims → Option String
  pub decode_jwt : ℕ → String → String → Option Claims

-- The documented behaviour that the code relies on.
pub record IsSound (env : Env) (web : Web) : Type 0 where
  -- A UUID is decoded from what it was bound as.
  pub decode-bind : (id : ℕ) → env.decode_uuid (env.bind_uuid id) ≡ some id
  -- A password is the one of its hash.
  pub verify-hash :
      (password hash : String) (salt : List ℕ)
      → web.hash_password password salt ≡ some hash
      → (web.is_hash hash ≡ true) × (web.verify_password password hash ≡ true)
  -- A token that has not expired gives its claims.
  pub decode-encode :
      (now : ℕ) (secret token : String) (claims : Claims)
      → web.encode_jwt secret claims ≡ some token
      → web.timestamp now ≤ claims.exp
      → web.decode_jwt now secret token ≡ some claims
  -- A day has 86400 seconds.
  pub timestamp-add_days :
      (now days : ℕ) → web.timestamp (web.add_days now days) ≡ web.timestamp now + days * 86400

-- `.ok_or(e)?`
abbrev pub expected {ℓ} : {E : Type 0} {A : Type ℓ} → E → Option A → M E A
expected e none = throw e
expected e (some a) = pure a

module _ (crates : Crates) where
  -- `get_secure_random_bytes` of da-node/src/user_api/mod.rs.
  unfoldable pub get_secure_random_bytes : ℕ → Result crates (List ℕ × ℕ)
  get_secure_random_bytes rng = do bytes ← unwrap (crates.generate rng); ok (bytes, rng + 1)

  -- A result of the crate `crypto`.
  abbrev pub lifted {ℓ} : {A : Type ℓ} → Result crates A → M FieldError A
  lifted (ok a) w = (ok a, w)
  lifted (err e) w = (err crypto_failed, w)
  lifted panic w = (panic, w)

  abbrev pub drawn {ℓ} : {A : Type ℓ} → Result crates (A × ℕ) → World → Outcome FieldError A × World
  drawn (ok (a, rng)) w = (ok a, record w { ticks = rng })
  drawn (err e) w = (err crypto_failed, w)
  drawn panic w = (panic, w)

  -- A function that asks for random bytes: its requests are the next interactions.
  unfoldable pub drawing {ℓ} : {A : Type ℓ} → (ℕ → Result crates (A × ℕ)) → M FieldError A
  drawing f w = drawn (f w.ticks) w

-- `Uuid::new_v4()`
unfoldable pub fresh_uuid : Web → {E : Type 0} → M E ℕ
fresh_uuid web w = (ok (web.new_v4 w.ticks), tick w)
