-- ===== src/Node/UserApi/Access.antt =====
-- Users who have registered: `login` of da-node/src/user_api/mod.rs, and the token that the
-- handler of da-node/src/startup.rs reads.
use da_concept.Base.{◌+◌, ◌*◌, ◌≤◌, ◌≡◌, refl, String, some, eq_iff, arith}
use da_concept.Base.Outcome.{ok}
use da_concept.Crypto.Crates.{Crates, IsLawful, IsAvailable}
use da_concept.Crypto.Types.{PrivateKey}
use da_concept.Crypto.PrivateKey
use da_concept.Crypto.KeyPair.{IsKey}
use da_concept.Node.Database.Row.{key_eq_iff}
use da_concept.Node.Database.Users.{select_name, select_user}
use da_concept.Node.Database.Users.Laws.{select_name-insert_user, select_user-insert_user}
use da_concept.Node.World.{Env, World, pure, attempt, utc_now, query, ◌>>=◌}
use da_concept.Node.Startup.{user_of_claims, user_of_token, current_user}
use da_concept.Node.UserApi.Types.{User, NewUserInput, AuthPayload, new_user_schema}
use da_concept.Node.UserApi.Web.{Web, IsSound}
use da_concept.Node.UserApi.Mutation.{claims_of, authenticated, register, login}
use da_concept.Node.UserApi.Accounts.{
  header_of, bearer-header_of, user_in, row_with, decode_user-user_row, IsOpen, register_lem,
}

module _ (env : Env) (web : Web) (crates : Crates) (secret : String) (law : IsLawful crates)
    (available : IsAvailable crates) (sound : IsSound env web) (input : NewUserInput) (w : World)
    (ready : IsOpen env web crates secret input w) (v : World)
    (kept : v.db.users ≡ (register env web crates secret input w).1.db.users) where
  -- A registration that meets an answering database, working crates and free names returns a token;
  -- for seven days, in every world with the users that it left, the header with this token is taken
  -- for the user that was returned, whose private key imports to a valid key.
  pub current_user-register :
      web.timestamp (env.now v.ticks)
        ≤ web.timestamp (env.now (w.ticks + 1 + 1 + 1 + 1)) + 7 * 86400
      → (payload : AuthPayload) × (user : User) × (key : PrivateKey) × ((register env web crates
            secret input w).0
          ≡ ok payload)
        × ((current_user env web secret (some (header_of payload.token)) v).0 ≡ ok (some user))
        × (new_user_schema user ≡ payload.user)
        × (PrivateKey.try_from crates user.private_key ≡ ok key)
        × IsKey key
  unfolding current_user user_of_token user_of_claims attempt utc_now query ◌>>=◌ pure
  current_user-register in_time =
      let r = register_lem env web crates secret law available sound input w ready in
      let row = row_with env web crates secret input r.clock r.id r.hash r.key in
      let now = env.now (w.ticks + 1 + 1 + 1 + 1) in
      let claims = claims_of env web crates secret r.id now in
      let lasts : web.timestamp (env.now v.ticks) ≤ claims.exp =
        omega (arith, in_time, sound.timestamp-add_days now 7) in
      let reads = sound.decode-encode (env.now v.ticks) secret r.token claims r.signed lasts in
      let self = (key_eq_iff row.id row.id).1 refl in
      let found : select_user row.id v.db.users ≡ some row =
        rw (kept, select_user-insert_user row w.db.users _ row.id r.inserts, self) refl in
      let decoded =
        decode_user-user_row env web crates secret law available sound r.clock r.id input r.hash
          (PrivateKey.get_encoded_private_key crates r.key) in
      (
        record { token = r.token; user = new_user_schema (user_in r.id row) },
        user_in r.id row,
        r.key,
        r.answered,
        rw (bearer-header_of r.token, reads, ready.answers (v.ticks + 1), found, decoded) refl,
        refl,
        r.import,
        r.valid,
      )

  -- After such a registration, in every world with the users that it left, the login with the name
  -- and the password that were registered returns the user that was returned.
  pub login-register :
      (payload : AuthPayload) × (again : AuthPayload) × ((register env web crates secret input w).0
        ≡ ok payload)
      × ((login env web crates secret
            (record { username = input.username; password = input.password })
            v).0
          ≡ ok again)
      × (again.user ≡ payload.user)
  unfolding login authenticated utc_now query ◌>>=◌ pure
  login-register =
      let r = register_lem env web crates secret law available sound input w ready in
      let row = row_with env web crates secret input r.clock r.id r.hash r.key in
      let (token, signed) = ready.signs r.id (env.now (v.ticks + 1)) in
      let self = (eq_iff row.username row.username).1 refl in
      let found : select_name input.username v.db.users ≡ some row =
        rw (kept, select_name-insert_user row w.db.users _ input.username r.inserts, self) refl in
      let decoded =
        decode_user-user_row env web crates secret law available sound r.clock r.id input r.hash
          (PrivateKey.get_encoded_private_key crates r.key) in
      let (is_hash, verified) = sound.verify-hash input.password r.hash r.salt r.hashed in
      let schema = new_user_schema (user_in r.id row) in
      (
        record { token = r.token; user = schema },
        record { token = token; user = schema },
        r.answered,
        rw (ready.answers v.ticks, found, decoded, is_hash, verified, signed) refl,
        refl,
      )
