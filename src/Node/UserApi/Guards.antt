-- ===== src/Node/UserApi/Guards.antt =====
-- Whom the node takes for a user: `login` of da-node/src/user_api/mod.rs, and the token that the handler of
-- da-node/src/startup.rs reads.
use mathlib.Core.Option.{some-injective}
use da_concept.Base.{
  ℕ, ◌≡◌, sym, ap, ◌∙◌, String, true, Option, some, List, [], ◌∷◌, inl, inr, arith, Bool-cases,
  Option-cases,
}
use da_concept.Base.Outcome.{ok, ok-injective}
use da_concept.Crypto.Crates.{Crates}
use da_concept.Node.Database.Row.{Key, key_eq_iff, UserRow}
use da_concept.Node.Database.Users.{select_name, select_user}
use da_concept.Node.World.{Env, World, tick, pure, throw, attempt, utc_now, query, ◌>>=◌}
use da_concept.Node.Startup.{bearer, user_of_claims, user_of_token, current_user}
use da_concept.Node.UserApi.Types.{
  User, Claims, LoginInput, AuthPayload, decode_user, new_user_schema,
}
use da_concept.Node.UserApi.Web.{Web, IsSound}
use da_concept.Node.UserApi.Mutation.{claims_of, authenticated, login}

select_user_id :
    (id : Key) (rows : List UserRow) (row : UserRow) → select_user id rows ≡ some row → row.id ≡ id
unfolding select_user
select_user_id id [] row e = cc
select_user_id id (r ∷ rows) row e = ground (arith, key_eq_iff r.id id, select_user_id id rows row)

pub decode_user_id :
    (env : Env) (web : Web)
    → IsSound env web
    → (row : UserRow) (id : ℕ) (user : User) → row.id ≡ env.bind_uuid id
    → decode_user env row ≡ some user
    → user.id ≡ id
unfolding decode_user
decode_user_id env web sound row id user same e =
    let decoded : env.decode_uuid row.id ≡ some id = rw same (sound.decode-bind id) in
    ap (λ u. u.id) (sym (some-injective _ _ (rw decoded at e)))

module _ (env : Env) (web : Web) (secret : String) where
  user_of_claims_ok :
      (c : Claims) (v : World) (user : User)
      → (user_of_claims env web secret (some c) v).0 ≡ ok (some user)
      → (row : UserRow) × (select_user (env.bind_uuid c.sub) v.db.users ≡ some row)
        × (decode_user env row ≡ some user)
  unfolding user_of_claims attempt query ◌>>=◌ pure
  user_of_claims_ok c v user e = elim (Bool-cases (env.db_fault v.ticks)) [
    | inl down ↦ cc (rw down at e)
    | inr up ↦ elim (Option-cases (select_user (env.bind_uuid c.sub) v.db.users)) [
      | inl missing ↦ cc (rw (up, missing) at e)
      | inr (row, found) ↦ elim (Option-cases (decode_user env row)) [
        | inl broken ↦ cc (rw (up, found, broken) at e)
        | inr (u, decoded) ↦ (
          row,
          found,
          decoded ∙ ap some (some-injective _ _ (ok-injective (rw (up, found, decoded) at e))),
        )
      ]
    ]
  ]

  -- Whatever the database does, with sound services, a header is taken for a user only if it carries a token that is
  -- valid at that time, whose claims name a stored user, and for that user.
  pub current_user_ok :
      IsSound env web
      → (w : World) (header : Option String) (user : User)
      → (current_user env web secret header w).0 ≡ ok (some user)
      → (token : String) × (claims : Claims) × (row : UserRow) × (bearer header ≡ some token)
        × (web.decode_jwt (env.now w.ticks) secret token ≡ some claims)
        × (select_user (env.bind_uuid claims.sub) w.db.users ≡ some row)
        × (decode_user env row ≡ some user)
        × (user.id ≡ claims.sub)
  unfolding current_user user_of_token utc_now ◌>>=◌ pure user_of_claims
  current_user_ok sound w header user e = elim (Option-cases (bearer header)) [
    | inl missing ↦ cc (rw missing at e)
    | inr (token, carried) ↦ elim (Option-cases (web.decode_jwt (env.now w.ticks) secret token)) [
      | inl refused ↦ cc (rw (carried, refused) at e)
      | inr (claims, valid) ↦
          let (row, found, decoded) =
            user_of_claims_ok claims (tick w) user (rw (carried, valid) at e) in
          (
            token,
            claims,
            row,
            carried,
            valid,
            found,
            decoded,
            decode_user_id env web sound row claims.sub user (select_user_id _ w.db.users row found)
                decoded,
          )
    ]
  ]

module _ (env : Env) (web : Web) (crates : Crates) (secret : String) where
  -- Whatever the database does, a login is answered with a user only if a row has the name that was
  -- given, the password is the one of the hash in that row, and the user is the one in that row.
  pub login_ok :
      (w : World) (input : LoginInput) (payload : AuthPayload)
      → (login env web crates secret input w).0 ≡ ok payload
      → (row : UserRow) × (user : User) × (select_name input.username w.db.users ≡ some row)
        × (decode_user env row ≡ some user)
        × (web.verify_password input.password user.password_hash ≡ true)
        × (payload.user ≡ new_user_schema user)
  unfolding login authenticated utc_now query ◌>>=◌ pure throw
  login_ok w input payload e = elim (Bool-cases (env.db_fault w.ticks)) [
    | inl down ↦ cc (rw down at e)
    | inr up ↦ elim (Option-cases (select_name input.username w.db.users)) [
      | inl unknown ↦ cc (rw (up, unknown) at e)
      | inr (row, found) ↦ elim (Option-cases (decode_user env row)) [
        | inl broken ↦ cc (rw (up, found, broken) at e)
        | inr (user, decoded) ↦ elim (Bool-cases (web.is_hash user.password_hash)) [
          | inr bad ↦ cc (rw (up, found, decoded, bad) at e)
          | inl good ↦ elim (Bool-cases (web.verify_password input.password user.password_hash)) [
            | inr wrong ↦ cc (rw (up, found, decoded, good, wrong) at e)
            | inl right ↦ (
              row,
              user,
              found,
              decoded,
              right,
              authenticated_ok user (tick w) payload (rw (up, found, decoded, good, right) at e),
            )
          ]
        ]
      ]
    ]
  ]
    where
      authenticated_ok :
          (user : User) (v : World) (payload : AuthPayload)
          → (authenticated env web crates secret user v).0 ≡ ok payload
          → payload.user ≡ new_user_schema user
      authenticated_ok user v payload e =
          elim (Option-cases
            (web.encode_jwt secret (claims_of env web crates secret user.id (env.now v.ticks)))) [
              | inl failed ↦ cc (rw failed at e)
              | inr (token, signed) ↦ sym (ap (λ p. p.user) (ok-injective (rw signed at e)))
            ]
