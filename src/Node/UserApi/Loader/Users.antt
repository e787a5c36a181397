-- ===== src/Node/UserApi/Loader/Users.antt =====
-- A batch of `UserBatcher` in da-node/src/user_api/data_loader.rs, compared with a statement for each
-- id alone.
use mathlib.Core.Bool.{true≢false}
use mathlib.Core.Option.{some-injective}
use da_concept.Base.{
  ℕ, ◌≡◌, refl, sym, ap, ◌∙◌, Bool, true, false, Option, none, some, List, [], ◌∷◌, map, ◌⊎◌, inl,
  inr, ◌==◌, ==_iff, if◌then◌else◌, arith, Bool-cases,
}
use da_concept.Base.Outcome.{ok}
use da_concept.Node.Database.Row.{Key, key_eq, key_eq_iff, UserRow}
use da_concept.Node.Database.Blobs.{is_key_among}
use da_concept.Node.Database.Users.{select_user, select_users, is_taken}
use da_concept.Node.Database.Users.Laws.{UniqueUsers}
use da_concept.Node.Manager.{contains}
use da_concept.Node.World.{Env, World, pure, attempt, query, ◌>>=◌}
use da_concept.Node.UserApi.Types.{User, decode_user}
use da_concept.Node.UserApi.Web.{Web, IsSound}
use da_concept.Node.UserApi.Guards.{decode_user_id}
use da_concept.Node.UserApi.Loader.Answers.{
  or_else, or_else-none, last_with, found_entry, get_entry-answers,
}
use da_concept.Node.UserApi.Loader.{
  LoadError, no_such, Entries, get_entry, answers, cons_user, decode_users, load_users,
}

-- A key among bound ids is one of them bound.
bound_among :
    (env : Env) (ids : List ℕ) (key : Key)
    → is_key_among key (map env.bind_uuid ids) ≡ true
    → (j : ℕ) × (contains j ids ≡ true) × (key ≡ env.bind_uuid j)
unfolding contains
bound_among env [] key e = cc
bound_among env (i ∷ ids) key e = elim (Bool-cases (key_eq (env.bind_uuid i) key)) [
  | inl here ↦ (i, ground arith, sym ((key_eq_iff (env.bind_uuid i) key).0 here))
  | inr there ↦
      let (j, among, same) = bound_among env ids key (ground arith) in (j, ground arith, same)
]

among_bound :
    (env : Env) (ids : List ℕ) (j : ℕ)
    → contains j ids ≡ true
    → is_key_among (env.bind_uuid j) (map env.bind_uuid ids) ≡ true
unfolding contains
among_bound env [] j e = cc
among_bound env (i ∷ ids) j e = elim (Bool-cases (j == i)) [
  | inl here ↦
      let same : j ≡ i = (==_iff j i).0 here in
      rw (same, (key_eq_iff (env.bind_uuid i) (env.bind_uuid i)).1 refl) refl
  | inr there ↦ ground (arith, among_bound env ids j)
]

cons_user-some :
    (env : Env) (o : Option User) (os : Option (List User)) (users : List User)
    → cons_user env o os ≡ some users
    → (u : User) × (us : List User) × (o ≡ some u) × (os ≡ some us) × (u ∷ us ≡ users)
cons_user-some env none os users e = cc
cons_user-some env (some u) none users e = cc
cons_user-some env (some u) (some us) users e = (u, us, refl, refl, some-injective _ _ e)

not_true : {b : Bool} → ¬ (b ≡ true) → b ≡ false
not_true {b} h = elim (Bool-cases b) [ inl t ↦ absurd (h t) | inr f ↦ f ]

not_taken :
    (new : UserRow) (rows : List UserRow)
    → is_taken new rows ≡ false
    → select_user new.id rows ≡ none
unfolding is_taken select_user
not_taken new [] e = refl
not_taken new (row ∷ rows) e = ground (arith, not_taken new rows)

module _ (env : Env) (web : Web) (sound : IsSound env web) (ids : List ℕ) (id : ℕ) where
  -- The user in the row that was selected, if there is one.
  abbrev pub user_found : Option UserRow → Option User
  user_found none = none
  user_found (some row) = decode_user env row

  -- The answer for the row that was selected for one id.
  abbrev pub entry_alone : Option UserRow → Option (User ⊎ LoadError)
  entry_alone o = or_else (found_entry (λ u. u.id) id (user_found o)) (some (inr (no_such id)))

  bind-injective : (i j : ℕ) → env.bind_uuid i ≡ env.bind_uuid j → i ≡ j
  bind-injective i j e =
      some-injective _ _ (sym (sound.decode-bind i) ∙ ap env.decode_uuid e ∙ sound.decode-bind j)

  abbrev asked : Option UserRow → Option User
  asked o = if contains id ids then user_found o else none

  -- A row that is selected, with the id of its user.
  last_with-selected :
      (row : UserRow) (rows : List UserRow) (j : ℕ) (u : User) (us : List User)
      → is_taken row rows ≡ false
      → contains j ids ≡ true
      → row.id ≡ env.bind_uuid j
      → decode_user env row ≡ some u
      → last_with (λ u. u.id) id us ≡ asked (select_user (env.bind_uuid id) rows)
      → last_with (λ u. u.id) id (u ∷ us) ≡ asked (select_user (env.bind_uuid id) (row ∷ rows))
  unfolding select_user
  last_with-selected row rows j u us fresh member same decoded rest =
      let names = decode_user_id env web sound row j u same decoded in
      rw rest (elim (Bool-cases (u.id == id)) [
        | inl here ↦
            let it : j ≡ id = sym names ∙ (==_iff u.id id).0 here in
            let self : key_eq row.id (env.bind_uuid id) ≡ true =
              (key_eq_iff row.id (env.bind_uuid id)).1 (same ∙ ap env.bind_uuid it) in
            let wanted : contains id ids ≡ true = rw it at member in
            let alone : select_user (env.bind_uuid id) rows ≡ none =
              rw (same ∙ ap env.bind_uuid it) at (not_taken row rows fresh) in
            rw (here, self, wanted, alone, decoded) refl
        | inr there ↦
            let differs : key_eq row.id (env.bind_uuid id) ≡ false = not_true λ t. true≢false (
              sym (
                (==_iff u.id id).1 (
                  names
                  ∙ bind-injective j id (sym same ∙ (key_eq_iff row.id (env.bind_uuid id)).0 t)))
              ∙ there) in
            rw (there, differs) (or_else-none _)
      ])

  last_with-unselected :
      (row : UserRow) (rows : List UserRow)
      → is_key_among row.id (map env.bind_uuid ids) ≡ false
      → asked (select_user (env.bind_uuid id) rows)
        ≡ asked (select_user (env.bind_uuid id) (row ∷ rows))
  unfolding select_user
  last_with-unselected row rows other = elim (Bool-cases (contains id ids)) [
    | inl wanted ↦
        let differs : key_eq row.id (env.bind_uuid id) ≡ false = not_true λ t.
          let here : is_key_among row.id (map env.bind_uuid ids) ≡ true =
            rw ((key_eq_iff row.id (env.bind_uuid id)).0 t) (among_bound env ids id wanted) in
          true≢false (sym here ∙ other) in
        rw differs refl
    | inr unasked ↦ rw unasked refl
  ]

  last_with-decode_users :
      (rows : List UserRow) (users : List User)
      → UniqueUsers rows
      → decode_users env (select_users (map env.bind_uuid ids) rows) ≡ some users
      → last_with (λ u. u.id) id users ≡ asked (select_user (env.bind_uuid id) rows)
  unfolding select_users decode_users select_user
  last_with-decode_users [] users unique e =
      let empty : [] ≡ users = some-injective _ _ e in
      rw (sym empty) (elim (Bool-cases (contains id ids)) [ inl t ↦ rw t refl | inr f ↦ rw f refl ])
  last_with-decode_users (row ∷ rows) users (fresh, unique) e =
      elim (Bool-cases (is_key_among row.id (map env.bind_uuid ids))) [
        | inl among ↦
            let (j, member, same) = bound_among env ids row.id among in
            let (u, us, decoded, others, all) =
              cons_user-some env (decode_user env row) _ users (rw among at e) in
            rw (sym all) (
              last_with-selected row rows j u us fresh member same decoded
                (last_with-decode_users rows us unique others))
        | inr other ↦
            last_with-decode_users rows users unique (rw other at e)
            ∙ last_with-unselected row rows other
      ]

module _ (env : Env) (web : Web) (sound : IsSound env web) where
  -- What stands for an id in the map.
  answered_alone :
      (ids : List ℕ) (id : ℕ) (rows : List UserRow) (users : List User)
      → UniqueUsers rows
      → decode_users env (select_users (map env.bind_uuid ids) rows) ≡ some users
      → get_entry id (answers (λ u. u.id) ids (inl users)) ≡ (
          if contains id ids
          then entry_alone env web sound ids id (select_user (env.bind_uuid id) rows)
          else none)
  answered_alone ids id rows users unique e =
      get_entry-answers (λ u. u.id) id ids users
      ∙ rw (last_with-decode_users env web sound ids id rows users unique e)
          (elim (Bool-cases (contains id ids)) [
            | inl wanted ↦ rw wanted refl
            | inr unasked ↦ rw unasked refl
          ])

  -- With sound services, while the database answers, in a table with unique keys where the rows that are selected decode,
  -- a batch answers each id that was asked for with the user that is selected under that id alone, or
  -- with an error that names the id where there is none, and no other id.
  pub load_users-select_user :
      (w : World) (ids : List ℕ) (id : ℕ) (users : List User)
      → env.db_fault w.ticks ≡ false
      → UniqueUsers w.db.users
      → decode_users env (select_users (map env.bind_uuid ids) w.db.users) ≡ some users
      → (entries : Entries User) × ((load_users env ids w).0 ≡ ok entries)
        × (get_entry id entries ≡ (
            if contains id ids
            then entry_alone env web sound ids id (select_user (env.bind_uuid id) w.db.users)
            else none))
  unfolding load_users attempt query ◌>>=◌ pure contains
  load_users-select_user w [] id users up unique e = ([], refl, refl)
  load_users-select_user w (i ∷ ids) id users up unique e = (
    answers (λ u. u.id) (i ∷ ids) (inl users),
    rw (up, e) refl,
    answered_alone (i ∷ ids) id w.db.users users unique e,
  )
