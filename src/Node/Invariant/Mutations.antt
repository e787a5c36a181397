-- ===== src/Node/Invariant/Mutations.antt =====
-- The mutations of da-node/src/user_api/mod.rs and the invariant of a node.
use da_concept.Base.{ℕ, String, Option, List}
use da_concept.Crypto.Crates.{Crates}
use da_concept.Node.World.{Env, World}
use da_concept.Node.UserApi.Types.{User, LoginInput, NewUserInput, BlobInput}
use da_concept.Node.UserApi.Web.{Web}
use da_concept.Node.UserApi.Mutation
use da_concept.Node.UserApi.Ensures.{
  register-Ensures, login-Ensures, add_blob-Ensures, delete_blob-Ensures,
}
use da_concept.Node.Invariant.{WellFormed, Keeps-permits}

-- A mutation with its input and, where it needs one, the user.
pub data Request : Type 0 where
  register : NewUserInput → Request
  login : LoginInput → Request
  add_blob : Option User → BlobInput → Request
  delete_blob : Option User → ℕ → Request

-- The world after it.
unfoldable pub after : Env → Web → Crates → String → Request → World → World
after env web crates secret (Request.register input) w =
    (Mutation.register env web crates secret input w).1
after env web crates secret (Request.login input) w =
    (Mutation.login env web crates secret input w).1
after env web crates secret (Request.add_blob user input) w =
    (Mutation.add_blob env web crates secret user input w).1
after env web crates secret (Request.delete_blob user id) w = (Mutation.delete_blob env user id w).1

-- Every mutation, also one that fails or that meets a failing database, keeps the node well formed:
-- the keys of the tables unique, and the queue fair.
pub mutation-WellFormed :
    (env : Env) (web : Web) (crates : Crates) (secret : String) (running : List ℕ)
    (request : Request) (w : World)
    → WellFormed running w
    → WellFormed running (after env web crates secret request w)
unfolding after
mutation-WellFormed env web crates secret running (Request.register input) w valid =
    ((register-Ensures (Keeps-permits running) env web crates secret input).at w).keep valid
mutation-WellFormed env web crates secret running (Request.login input) w valid =
    ((login-Ensures (Keeps-permits running) env web crates secret input).at w).keep valid
mutation-WellFormed env web crates secret running (Request.add_blob user input) w valid =
    ((add_blob-Ensures (Keeps-permits running) env web crates secret user input).at w).keep valid
mutation-WellFormed env web crates secret running (Request.delete_blob user id) w valid =
    ((delete_blob-Ensures (Keeps-permits running) env user id).at w).keep valid
