-- ===== src/Node/UserApi/Accounts.antt =====
-- `register` and `login` of da-node/src/user_api/mod.rs, and whom the handler of da-node/src/startup.rs
-- takes a token for.
use Prim.Native.String.{◌++◌ as str_append}
use Prim.Native.String.append
use da_concept.Base.{ℕ, ◌+◌, ◌≡◌, refl, String, Text, false, some, List, arith}
use da_concept.Base.Outcome.{ok}
use da_concept.Crypto.Crates.{Crates, IsLawful, IsAvailable}
use da_concept.Crypto.Types.{PrivateKey}
use da_concept.Crypto.PrivateKey
use da_concept.Crypto.KeyPair.{IsKey, generate_lem, try_from-get_encoded_private_key}
use da_concept.Node.Database.Row.{UserRow}
use da_concept.Node.Database.Users.{is_taken, insert_user}
use da_concept.Node.World.{Env, World, pure, utc_now, query, ◌>>=◌}
use da_concept.Node.Startup.{strip_prefix, bearer}
use da_concept.Node.UserApi.Types.{User, NewUserInput, decode_user, new_user_schema}
use da_concept.Node.UserApi.Web.{Web, IsSound, get_secure_random_bytes, drawing, fresh_uuid}
use da_concept.Node.UserApi.Mutation.{claims_of, authenticated, user_row, register}

-- The header that carries a token.
abbrev pub header_of : String → String
header_of token = str_append "Bearer " token

strip_prefix-append :
    (prefix text : String) → strip_prefix prefix (str_append prefix text) ≡ some text
unfolding strip_prefix
strip_prefix-append String.[] text = rw (append.nil text) refl
strip_prefix-append (String.◌∷◌ c prefix) text =
    rw (append.cons c prefix text) (ground (arith, strip_prefix-append prefix text))

pub bearer-header_of : (token : String) → bearer (some (header_of token)) ≡ some token
unfolding bearer
bearer-header_of token = strip_prefix-append "Bearer " token

-- An exported key that was generated imports to a valid key.
generated :
    (crates : Crates)
    → IsLawful crates
    → IsAvailable crates
    → (rng : ℕ)
    → (key : PrivateKey) × (PrivateKey.generate crates rng ≡ ok (key, rng + 1))
      × IsKey key
      × (PrivateKey.try_from crates (PrivateKey.get_encoded_private_key crates key) ≡ ok key)
unfolding PrivateKey.generate PrivateKey.get_secure_random_bytes
generated crates law available rng =
    let (bytes, drawn) = available rng in
    let (key, made, valid) = generate_lem crates law available rng in
    let (same, from, import) =
      try_from-get_encoded_private_key crates law (crates.from_bytes_be bytes) in
    let both : key ≡ same = cc (rw (drawn, from) at made) in (key, made, valid, rw both import)

-- The user in a row.
abbrev pub user_in : ℕ → UserRow → User
user_in id row = record {
  id = id;
  username = row.username;
  password_hash = row.password_hash;
  private_key = row.private_key;
  email = row.email;
  created_at = row.created_at;
  updated_at = row.updated_at;
}

module _ (env : Env) (web : Web) (crates : Crates) (secret : String) where
  -- A world in which a registration goes through: the database answers, no user has the name, the
  -- email or a new UUID, and passwords and claims can be encoded.
  pub record IsOpen (input : NewUserInput) (w : World) : Type 0 where
    pub answers : (n : ℕ) → env.db_fault n ≡ false
    pub fresh :
        (clock id : ℕ) (hash : String) (exported : Text)
        → is_taken
            (user_row env web crates secret clock (web.new_v4 id) input hash exported)
            w.db.users
          ≡ false
    pub hashes :
        (salt : List ℕ) → (hash : String) × (web.hash_password input.password salt ≡ some hash)
    pub signs :
        (id now : ℕ)
        → (token : String) × (web.encode_jwt secret (claims_of env web crates secret id now)
            ≡ some token)

  -- The row that a registration stores.
  abbrev pub row_with : NewUserInput → ℕ → ℕ → String → PrivateKey → UserRow
  row_with input clock id hash key =
      user_row env web crates secret clock id input hash
        (PrivateKey.get_encoded_private_key crates key)

  -- How a registration went through.
  pub record Registered (input : NewUserInput) (w : World) : Type 0 where
    pub clock : ℕ
    pub id : ℕ
    pub salt : List ℕ
    pub hash : String
    pub key : PrivateKey
    pub token : String
    pub hashed : web.hash_password input.password salt ≡ some hash
    pub signed :
        web.encode_jwt secret
          (claims_of env web crates secret id (env.now (w.ticks + 1 + 1 + 1 + 1)))
        ≡ some token
    pub valid : IsKey key
    pub import : PrivateKey.try_from crates (PrivateKey.get_encoded_private_key crates key) ≡ ok key
    pub inserts :
        insert_user (row_with input clock id hash key) w.db.users
        ≡ some (register env web crates secret input w).1.db.users
    pub answered :
        (register env web crates secret input w).0
        ≡ ok (record {
          token = token;
          user = new_user_schema (user_in id (row_with input clock id hash key));
        })

  module _ (law : IsLawful crates) (available : IsAvailable crates) (sound : IsSound env web) where
    pub decode_user-user_row :
        (clock id : ℕ) (input : NewUserInput) (hash : String) (exported : Text)
        → decode_user env (user_row env web crates secret clock id input hash exported)
          ≡ some (user_in id (user_row env web crates secret clock id input hash exported))
    unfolding decode_user
    decode_user-user_row clock id input hash exported = rw (sound.decode-bind id) refl

    pub register_lem : (input : NewUserInput) (w : World) → IsOpen input w → Registered input w
    unfolding register authenticated drawing get_secure_random_bytes fresh_uuid query utc_now
        insert_user ◌>>=◌ pure
    register_lem input w ready =
        let (salt, drawn) = available w.ticks in
        let (hash, hashed) = ready.hashes salt in
        let (key, made, valid, import) = generated crates law available (w.ticks + 1) in
        let id = web.new_v4 (w.ticks + 1 + 1) in
        let clock = env.now (w.ticks + 1 + 1 + 1) in
        let (token, signed) = ready.signs id (env.now (w.ticks + 1 + 1 + 1 + 1)) in
        let fresh =
          ready.fresh clock (w.ticks + 1 + 1) hash
            (PrivateKey.get_encoded_private_key crates key) in
        let decoded =
          decode_user-user_row clock id input hash
            (PrivateKey.get_encoded_private_key crates key) in
        record {
          clock = clock;
          id = id;
          salt = salt;
          hash = hash;
          key = key;
          token = token;
          hashed = hashed;
          signed = signed;
          valid = valid;
          import = import;
          inserts =
              rw (drawn, hashed, made, ready.answers (w.ticks + 1 + 1 + 1), fresh, decoded, signed)
                refl;
          answered =
              rw (drawn, hashed, made, ready.answers (w.ticks + 1 + 1 + 1), fresh, decoded, signed)
                refl;
        }
