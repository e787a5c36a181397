-- ===== src/Node/Database/Users.antt =====
-- The statements on the table `users`.
pub mod Laws
use da_concept.Base.{
  String, Bool, true, false, ◌||◌, Option, none, some, List, [], ◌∷◌, ◌++◌, str_eq, if◌then◌else◌,
}
use da_concept.Node.Database.Row.{Key, key_eq, UserRow}
use da_concept.Node.Database.Blobs.{is_key_among}

-- SELECT * FROM users WHERE username = ?, the first row.
unfoldable pub select_name : String → List UserRow → Option UserRow
select_name username [] = none
select_name username (row ∷ rows) =
    if str_eq row.username username then some row else select_name username rows

-- SELECT * FROM users WHERE id = ?, the first row.
unfoldable pub select_user : Key → List UserRow → Option UserRow
select_user id [] = none
select_user id (row ∷ rows) = if key_eq row.id id then some row else select_user id rows

-- Two NULLs are not equal.
abbrev pub same_email : Option String → Option String → Bool
same_email (some s) (some t) = str_eq s t
same_email _ _ = false

-- Whether two rows agree in a column that is a primary key or UNIQUE.
abbrev pub clashes : UserRow → UserRow → Bool
clashes new row =
    key_eq row.id new.id || (str_eq row.username new.username || same_email row.email new.email)

unfoldable pub is_taken : UserRow → List UserRow → Bool
is_taken new [] = false
is_taken new (row ∷ rows) = clashes new row || is_taken new rows

-- INSERT INTO users
unfoldable pub insert_user : UserRow → List UserRow → Option (List UserRow)
insert_user new rows = if is_taken new rows then none else some (rows ++ new ∷ [])

-- SELECT * FROM users WHERE id IN (…)
unfoldable pub select_users : List Key → List UserRow → List UserRow
select_users keys [] = []
select_users keys (row ∷ rows) =
    let rest = select_users keys rows in if is_key_among row.id keys then row ∷ rest else rest
