-- ===== src/Node/Tests/Revived.antt =====
-- A deleted blob that comes back, at concrete nodes.
use da_concept.Base.{some, [], ◌∷◌}
use da_concept.Node.World.{World}
use da_concept.Node.UserApi.Mutation.{delete_blob}
use da_concept.Node.Tests.Cases.{bytes_world}
use da_concept.Node.Tests.Replication.{joined}
use da_concept.Node.Tests.Users.{user_of}

-- Both nodes have the blob.
abbrev owning : World
owning = record bytes_world { connected = 0 ∷ [] }

abbrev deleted : World
deleted = (delete_blob joined (some (user_of 1)) 7 owning).1
