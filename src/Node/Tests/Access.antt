-- ===== src/Node/Tests/Access.antt =====
-- Registrations, logins and tokens at concrete inputs.
use da_concept.Base.{
  ℕ, ◌+◌, ◌*◌, ◌≡◌, refl, String, true, none, some, List, [], ◌∷◌, if◌then◌else◌, arith, map,
}
use da_concept.Base.Outcome.{ok}
use da_concept.Crypto.Types.{PrivateKey}
use da_concept.Crypto.PrivateKey
use da_concept.Crypto.KeyPair.{IsKey}
use da_concept.Crypto.Tests.Sample.{crates, crates-IsLawful, crates-IsAvailable}
use da_concept.Node.Database.Row.{bytes, UserRow}
use da_concept.Node.Database.Users.{select_name, select_user, select_users, is_taken}
use da_concept.Node.Database.Users.Laws.{UniqueUsers}
use da_concept.Node.Manager.{contains}
use da_concept.Node.World.{World, pure, utc_now, attempt, query, ◌>>=◌}
use da_concept.Node.Startup.{bearer, strip_prefix, user_of_claims, user_of_token, current_user}
use da_concept.Node.UserApi.Types.{
  User, Claims, NewUserInput, AuthPayload, decode_user, new_user_schema,
}
use da_concept.Node.UserApi.Web.{Web}
use da_concept.Node.UserApi.Mutation.{authenticated, register, login}
use da_concept.Node.UserApi.Accounts.{header_of, IsOpen}
use da_concept.Node.UserApi.Access.{current_user-register, login-register}
use da_concept.Node.UserApi.Guards.{current_user_ok, login_ok}
use da_concept.Node.UserApi.Loader.{Entries, get_entry, decode_users, load_users}
use da_concept.Node.UserApi.Loader.Users.{entry_alone, load_users-select_user}
use da_concept.Node.Tests.Sample.{env, world}
use da_concept.Node.Tests.Services
use da_concept.Node.Tests.Services.{write, web, web-IsSound}

abbrev input : NewUserInput
input = record { username = "u"; password = "p"; email = none }

abbrev before : World
before = world []

before-IsOpen : IsOpen env web crates "s" input before
unfolding is_taken
before-IsOpen = record {
  answers = λ n. refl;
  fresh = λ clock id hash exported. refl;
  hashes = λ salt. ("p", refl);
  signs = λ id now. (write (id ∷ (now + 7 * 86400) ∷ now ∷ []), refl);
}

-- A later world with the users that the registration left.
abbrev later : World
later = record before { db = (register env web crates "s" input before).1.db; ticks = 50 }

current_user-register_example :
    (payload : AuthPayload) × (user : User) × (key : PrivateKey) × ((register env web crates "s"
        input before).0
      ≡ ok payload)
    × ((current_user env web "s" (some (header_of payload.token)) later).0 ≡ ok (some user))
    × (new_user_schema user ≡ payload.user)
    × (PrivateKey.try_from crates user.private_key ≡ ok key)
    × IsKey key
current_user-register_example =
    current_user-register env web crates "s" crates-IsLawful crates-IsAvailable web-IsSound input
      before before-IsOpen later refl (omega arith)

login-register_example :
    (payload : AuthPayload) × (again : AuthPayload) × ((register env web crates "s" input before).0
      ≡ ok payload)
    × ((login env web crates "s" (record { username = "u"; password = "p" }) later).0 ≡ ok again)
    × (again.user ≡ payload.user)
login-register_example =
    login-register env web crates "s" crates-IsLawful crates-IsAvailable web-IsSound input before
      before-IsOpen later refl

-- A stored user, and what stands in the row.
abbrev user_row : UserRow
user_row = record {
  id = bytes 1;
  username = "u";
  password_hash = "p";
  private_key = [];
  email = none;
  created_at = 5;
  updated_at = 5;
}

abbrev stored_user : User
stored_user = record {
  id = 1;
  username = "u";
  password_hash = "p";
  private_key = [];
  email = none;
  created_at = 5;
  updated_at = 5;
}

abbrev users_world : World
users_world = record before { db = record before.db { users = user_row ∷ [] } }

abbrev token : String
token = write (1 ∷ 200 ∷ 3 ∷ [])

accepted : (current_user env web "s" (some (header_of token)) users_world).0 ≡ ok (some stored_user)
unfolding current_user user_of_token user_of_claims bearer strip_prefix utc_now attempt query ◌>>=◌
    pure select_user decode_user Services.write Services.ones Services.read Services.one_more
accepted = refl

current_user_ok_example :
    (carried : String) × (claims : Claims) × (row : UserRow) × (bearer (some (header_of token))
      ≡ some carried)
    × (web.decode_jwt (env.now users_world.ticks) "s" carried ≡ some claims)
    × (select_user (env.bind_uuid claims.sub) users_world.db.users ≡ some row)
    × (decode_user env row ≡ some stored_user)
    × (stored_user.id ≡ claims.sub)
current_user_ok_example =
    current_user_ok env web "s" web-IsSound users_world (some (header_of token)) stored_user
      accepted

-- A service whose tokens are short.
abbrev short_web : Web
short_web = record web { encode_jwt = λ secret claims. some "t" }

abbrev payload : AuthPayload
payload = record { token = "t"; user = new_user_schema stored_user }

admitted :
    (login env short_web crates "s" (record { username = "u"; password = "p" }) users_world).0
    ≡ ok payload
unfolding login authenticated utc_now query ◌>>=◌ pure select_name decode_user
admitted = refl

login_ok_example :
    (row : UserRow) × (user : User) × (select_name "u" users_world.db.users ≡ some row)
    × (decode_user env row ≡ some user)
    × (short_web.verify_password "p" user.password_hash ≡ true)
    × (payload.user ≡ new_user_schema user)
login_ok_example =
    login_ok env short_web crates "s" users_world (record { username = "u"; password = "p" })
      payload admitted

abbrev asked : List ℕ
asked = 1 ∷ 2 ∷ []

found :
    decode_users env (select_users (map env.bind_uuid asked) users_world.db.users)
    ≡ some (stored_user ∷ [])
unfolding decode_users select_users decode_user
found = refl

users_unique : UniqueUsers users_world.db.users
unfolding is_taken
users_unique = (refl, tt)

load_users-select_user_example :
    (entries : Entries User) × ((load_users env asked users_world).0 ≡ ok entries)
    × (get_entry 2 entries ≡ (
        if contains 2 asked
        then entry_alone env web web-IsSound asked 2
            (select_user (env.bind_uuid 2) users_world.db.users)
        else none))
load_users-select_user_example =
    load_users-select_user env web web-IsSound users_world asked 2 (stored_user ∷ []) refl
      users_unique found
