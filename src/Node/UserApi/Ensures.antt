-- ===== src/Node/UserApi/Ensures.antt =====
-- The mutations of da-node/src/user_api/mod.rs, in the terms of Node/Permits.
use mathlib.Core.Path.{subst}
use da_concept.Base.{
  ℕ, ◌≡◌, refl, String, true, not, Option, none, some, List, [], ◌∷◌, ◌==◌, arith,
}
use da_concept.Base.Outcome.{ok, err, panic}
use da_concept.Crypto.Crates.{Crates, Result}
use da_concept.Node.Database.{Db}
use da_concept.Node.Database.Row.{BlobRow, UserRow}
use da_concept.Node.Database.Blobs.{insert}
use da_concept.Node.Database.Users.{insert_user}
use da_concept.Node.Permits.{Permits, Ensures-write}
use da_concept.Node.World.{Env, World, tick, modify_manager}
use da_concept.Node.World.Ensures.{
  Ensures, IsFrame, frame_rules, Ensures-pure, Ensures-throw, Ensures-bind, Ensures-if,
  Ensures-option, Ensures-utc_now, Ensures-read, Ensures-query, Ensures-map_err,
}
use da_concept.Node.Sync.{sync_blob}
use da_concept.Node.UserApi.Types.{User, LoginInput, NewUserInput, BlobInput}
use da_concept.Node.UserApi.Web.{Web, expected, lifted, drawn, drawing, fresh_uuid}
use da_concept.Node.UserApi.Mutation.{
  authenticated, user_inserted, register, login, blob_inserted, add_blob, statuses_inserted,
  delete_blob,
}
use da_concept.Node.UserApi.Deletion.{insert_selected-eq, inserted}

module _ {Q : World → World → Type 0} (permits : Permits Q) where
  frame : IsFrame Q
  frame = permits.frame

  expected-Ensures : {E A : Type 0} (e : E) (o : Option A) → Ensures Q (expected e o)
  expected-Ensures e none = Ensures-throw frame e
  expected-Ensures e (some a) = Ensures-pure frame a

  lifted-Ensures :
      {A : Type 0} (crates : Crates) (r : Result crates A) → Ensures Q (lifted crates r)
  lifted-Ensures crates (ok a) = record { at = λ w. frame.unseen w w refl refl }
  lifted-Ensures crates (err e) = record { at = λ w. frame.unseen w w refl refl }
  lifted-Ensures crates panic = record { at = λ w. frame.unseen w w refl refl }

  drawn-Ensures :
      {A : Type 0} (crates : Crates) (r : Result crates (A × ℕ)) (w : World)
      → Q w (drawn crates r w).1
  drawn-Ensures crates (ok (a, rng)) w = frame.unseen w (record w { ticks = rng }) refl refl
  drawn-Ensures crates (err e) w = frame.unseen w w refl refl
  drawn-Ensures crates panic w = frame.unseen w w refl refl

  drawing-Ensures :
      {A : Type 0} (crates : Crates) (f : ℕ → Result crates (A × ℕ)) → Ensures Q (drawing crates f)
  unfolding drawing
  drawing-Ensures crates f = record { at = λ w. drawn-Ensures crates (f w.ticks) w }

  fresh_uuid-Ensures : {E : Type 0} (web : Web) → Ensures Q (fresh_uuid web {E = E})
  unfolding fresh_uuid
  fresh_uuid-Ensures web = record { at = λ w. frame.unseen w (tick w) refl refl }

  sync_blob-Ensures : (env : Env) (id : ℕ) (hash : String) → Ensures Q (sync_blob env id hash)
  unfolding sync_blob modify_manager
  sync_blob-Ensures env id hash = record { at = λ w. permits.on_enqueue w id hash }

  ruleset mutation_rules = (
    frame_rules, frame, expected-Ensures, lifted-Ensures, drawing-Ensures, fresh_uuid-Ensures,
    sync_blob-Ensures,
  )

  module _ (env : Env) where
    user_inserted_at :
        (w : World) (row out : UserRow) (db : Db) (o : Option (List UserRow))
        → insert_user row w.db.users ≡ o
        → user_inserted w.db row o ≡ some (out, db)
        → Q w (record w { db = db })
    user_inserted_at w row out db none e p = cc
    user_inserted_at w row out db (some rows) e p =
        let same : record w.db { users = rows } ≡ db = ground arith in
        subst (λ d. Q w (record w { db = d })) same (permits.on_user w row rows e)

    blob_inserted_at :
        (w : World) (row out : BlobRow) (db : Db) (o : Option (List BlobRow))
        → row.deleted_at ≡ none
        → insert row w.db.blobs ≡ o
        → blob_inserted w.db row o ≡ some (out, db)
        → Q w (record w { db = db })
    blob_inserted_at w row out db none live e p = cc
    blob_inserted_at w row out db (some rows) live e p =
        let same : record w.db { blobs = rows } ≡ db = ground arith in
        subst (λ d. Q w (record w { db = d })) same (permits.on_insert w row rows live e)

    module _ (web : Web) (crates : Crates) (jwt_secret : String) where
      authenticated-Ensures :
          (user : User) → Ensures Q (authenticated env web crates jwt_secret user)
      unfolding authenticated
      authenticated-Ensures user = search mutation_rules

      pub register-Ensures :
          (input : NewUserInput) → Ensures Q (register env web crates jwt_secret input)
      unfolding register
      register-Ensures input = Ensures-bind frame _ _ (drawing-Ensures crates _) λ salt.
          Ensures-bind frame _ _ (expected-Ensures _ _) λ hash.
            Ensures-bind frame _ _ (drawing-Ensures crates _) λ key.
              Ensures-bind frame _ _ (fresh_uuid-Ensures web) λ id.
                Ensures-bind frame _ _
                  (Ensures-query frame env _ _ λ clock w out db p.
                    user_inserted_at w _ out db (insert_user _ w.db.users) refl p)
                  λ row. Ensures-bind frame _ _ (expected-Ensures _ _) authenticated-Ensures

      pub login-Ensures : (input : LoginInput) → Ensures Q (login env web crates jwt_secret input)
      unfolding login
      login-Ensures input =
          Ensures-bind frame _ _ (Ensures-read frame env _ _ λ clock d db a p. ground arith)
            λ found. Ensures-bind frame _ _ (expected-Ensures _ found) λ user.
              Ensures-if frame (not (web.is_hash user.password_hash)) _ _ (Ensures-throw frame _) (
                Ensures-if frame (not (web.verify_password input.password user.password_hash)) _ _
                  (Ensures-throw frame _) (authenticated-Ensures user))

      pub add_blob-Ensures :
          (user : Option User) (input : BlobInput)
          → Ensures Q (add_blob env web crates jwt_secret user input)
      unfolding add_blob
      add_blob-Ensures none input = Ensures-throw frame _
      add_blob-Ensures (some user) input = Ensures-bind frame _ _ (lifted-Ensures crates _) λ key.
          Ensures-bind frame _ _ (drawing-Ensures crates _) λ content.
            Ensures-bind frame _ _ (fresh_uuid-Ensures web) λ id.
              Ensures-bind frame _ _
                (Ensures-query frame env _ _
                  λ clock w out db p. blob_inserted_at w _ out db (insert _ w.db.blobs) refl refl p)
                λ row. Ensures-bind frame _ _ (expected-Ensures _ _) λ blob.
                  Ensures-bind frame _ _ (Ensures-map_err Q _ _ (sync_blob-Ensures env _ _))
                    λ _. Ensures-pure frame _

    selected_at :
        (w : World) (db : Db) (a : Unit {0}) (peers : List String)
        → statuses_inserted env w.db (inserted peers w.db.sync_status) ≡ some (a, db)
        → Q w (record w { db = db })
    selected_at w db a [] p =
        let same : record w.db { sync_status = w.db.sync_status } ≡ db = ground arith in
        subst (λ d. Q w (record w { db = d })) same
          (permits.on_statuses w w.db.sync_status (λ u. u))
    selected_at w db a (x ∷ xs) p = cc

    pub delete_blob-Ensures :
        (user : Option User) (blob_id : ℕ) → Ensures Q (delete_blob env user blob_id)
    unfolding delete_blob
    delete_blob-Ensures none blob_id = Ensures-throw frame _
    delete_blob-Ensures (some user) blob_id =
        Ensures-bind frame _ _ (Ensures-read frame env _ _ λ clock d db a p. ground arith) λ found.
          Ensures-option frame found _ _ (Ensures-throw frame _) λ blob.
            Ensures-if frame (not (blob.owner_id == user.id)) _ _ (Ensures-throw frame _) (
              Ensures-bind frame _ _ (Ensures-utc_now frame env) λ now.
                Ensures-bind frame _ _
                  (Ensures-write frame env _ _
                    λ clock w. permits.on_delete w now clock (env.bind_uuid blob_id))
                  λ _.
                    Ensures-bind frame _ _ (Ensures-map_err Q _ _ (sync_blob-Ensures env _ _)) λ _.
                      Ensures-bind frame _ _
                        (Ensures-query frame env _ _
                          λ clock w a db p. selected_at w db a _ (rw insert_selected-eq at p))
                        λ _. Ensures-pure frame true)
