-- ===== src/Node/Database/Users/Laws.antt =====
-- The keys of the table `users`.
use da_concept.Base.{
  ◌≡◌, refl, String, false, ◌||◌, Option, none, some, List, [], ◌∷◌, ◌++◌, str_eq, eq_iff,
  if◌then◌else◌, arith,
}
use da_concept.Node.Database.Row.{Key, key_eq, key_eq_iff, UserRow}
use da_concept.Node.Database.Users.{
  select_name, select_user, same_email, clashes, is_taken, insert_user,
}

-- No two rows have the same id, name or email.
abbrev pub UniqueUsers : List UserRow → Type 0
UniqueUsers [] = Unit
UniqueUsers (row ∷ rows) = (is_taken row rows ≡ false) × UniqueUsers rows

same_email_comm : (a b : Option String) → same_email a b ≡ same_email b a
same_email_comm none none = refl
same_email_comm none (some t) = refl
same_email_comm (some s) none = refl
same_email_comm (some s) (some t) = ground (arith, eq_iff s t, eq_iff t s)

clashes_comm : (r s : UserRow) → clashes r s ≡ clashes s r
clashes_comm r s = ground (
  arith,
  same_email_comm r.email s.email,
  key_eq_iff r.id s.id,
  key_eq_iff s.id r.id,
  eq_iff r.username s.username,
  eq_iff s.username r.username,
)

is_taken-append :
    (new : UserRow) (rows : List UserRow) (row : UserRow)
    → is_taken new (rows ++ row ∷ []) ≡ (is_taken new rows || clashes new row)
unfolding is_taken
is_taken-append new [] row = ground arith
is_taken-append new (r ∷ rows) row = ground (arith, is_taken-append new rows row)

append-UniqueUsers :
    (rows : List UserRow) (row : UserRow)
    → is_taken row rows ≡ false
    → UniqueUsers rows
    → UniqueUsers (rows ++ row ∷ [])
unfolding is_taken
append-UniqueUsers [] row h u = (refl, tt)
append-UniqueUsers (r ∷ rows) row h (fresh, u) =
    ground (arith, is_taken-append r rows row, clashes_comm r row, append-UniqueUsers rows row)

-- INSERT keeps the keys unique.
pub insert_user-UniqueUsers :
    (row : UserRow) (rows rows' : List UserRow)
    → insert_user row rows ≡ some rows'
    → UniqueUsers rows
    → UniqueUsers rows'
unfolding insert_user
insert_user-UniqueUsers row rows rows' e u = ground (arith, append-UniqueUsers rows row)

select_name-append :
    (row : UserRow) (rows : List UserRow) (name : String)
    → is_taken row rows ≡ false
    → select_name name (rows ++ row ∷ [])
      ≡ (if str_eq row.username name then some row else select_name name rows)
unfolding is_taken select_name
select_name-append row [] name h = refl
select_name-append row (r ∷ rows) name h = ground (
  arith,
  select_name-append row rows name,
  eq_iff r.username row.username,
  eq_iff r.username name,
  eq_iff row.username name,
)

select_user-append :
    (row : UserRow) (rows : List UserRow) (id : Key)
    → is_taken row rows ≡ false
    → select_user id (rows ++ row ∷ [])
      ≡ (if key_eq row.id id then some row else select_user id rows)
unfolding is_taken select_user
select_user-append row [] id h = refl
select_user-append row (r ∷ rows) id h = ground (
  arith,
  select_user-append row rows id,
  key_eq_iff r.id row.id,
  key_eq_iff r.id id,
  key_eq_iff row.id id,
)

-- After an INSERT the row is found by its name and by its id, and other rows are found as before.
pub select_name-insert_user :
    (row : UserRow) (rows rows' : List UserRow) (name : String)
    → insert_user row rows ≡ some rows'
    → select_name name rows'
      ≡ (if str_eq row.username name then some row else select_name name rows)
unfolding insert_user
select_name-insert_user row rows rows' name e = ground (arith, select_name-append row rows name)

pub select_user-insert_user :
    (row : UserRow) (rows rows' : List UserRow) (id : Key)
    → insert_user row rows ≡ some rows'
    → select_user id rows' ≡ (if key_eq row.id id then some row else select_user id rows)
unfolding insert_user
select_user-insert_user row rows rows' id e = ground (arith, select_user-append row rows id)
