-- ===== src/Node/Database/Row.antt =====
-- The rows, as da-node/migrations declares them. A point in time is a number.
use da_concept.Base.{
  Text, ℕ, String, Bool, true, false, Option, List, ◌≡◌, ◌↔◌, ◌==◌, str_eq, eq_iff, ==_iff, arith,
}
use da_concept.Base.Int.{ℤ}

-- A value in a column that holds identifiers: a text, or the 16 bytes of a UUID. SQLite never
-- takes the one for the other.
pub data Key : Type 0 where
  text : String → Key
  bytes : ℕ → Key

abbrev pub key_eq : Key → Key → Bool
key_eq (text s) (text t) = str_eq s t
key_eq (bytes m) (bytes n) = m == n
key_eq _ _ = false

pub key_eq_iff : (a b : Key) → (key_eq a b ≡ true) ↔ (a ≡ b)
key_eq_iff (text s) (text t) = ground (arith, eq_iff s t)
key_eq_iff (bytes m) (bytes n) = ground (arith, ==_iff m n)
key_eq_iff (text s) (bytes n) = ground arith
key_eq_iff (bytes m) (text t) = ground arith

pub record BlobRow : Type 0 where
  pub id : Key
  pub content : List ℕ
  pub metadata : Option String
  pub content_type : Option String
  pub size : ℤ
  pub hash : Option String
  pub owner_id : Key
  pub public_key : Text
  pub created_at : ℕ
  pub updated_at : ℕ
  pub deleted_at : Option ℕ

pub record UserRow : Type 0 where
  pub id : Key
  pub username : String
  pub password_hash : String
  pub private_key : Text
  pub email : Option String
  pub created_at : ℕ
  pub updated_at : ℕ

-- The texts that the CHECK of `sync_status` allows.
pub data Status : Type 0 where
  pending completed failed : Status

pub record StatusRow : Type 0 where
  pub blob_id : Key
  pub peer_node_id : String
  pub sync_status : Status
  pub last_sync_attempt : Option ℕ
  pub last_successful_sync : Option ℕ
  pub retry_count : ℕ
  pub created_at : ℕ
  pub updated_at : ℕ
