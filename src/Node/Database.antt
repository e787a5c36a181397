-- ===== src/Node/Database.antt =====
-- The tables `blobs`, `sync_status` and `users` (da-node/migrations) and the SQL statements that the node
-- runs on them. A statement that breaks a primary key is `none`. The trigger of each table sets
-- `updated_at` after an update. Rows keep their order of insertion.
pub mod Row
pub mod Blobs
pub mod Statuses
pub mod Users
use da_concept.Base.{List}
use Row.{BlobRow, StatusRow, UserRow}

pub record Db : Type 0 where
  pub blobs : List BlobRow
  pub sync_status : List StatusRow
  pub users : List UserRow
