-- ===== src/Node/Invariant/Keys.antt =====
-- The keys of the tables.
use da_concept.Node.Database.Blobs.Laws.{UniqueIds}
use da_concept.Node.Database.Statuses.Laws.{UniquePairs}
use da_concept.Node.Database.Users.Laws.{UniqueUsers}
use da_concept.Node.World.{World}

-- The primary key of each table is unique, and so are the names and emails of users.
pub record HasKeys (w : World) : Type 0 where
  pub ids : UniqueIds w.db.blobs
  pub pairs : UniquePairs w.db.sync_status
  pub accounts : UniqueUsers w.db.users
