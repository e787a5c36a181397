-- ===== src/Node/Tests/Cases.antt =====
-- The worlds and schedules that the tests share, and what holds of them.
use da_concept.Node.Tests.Sample.{row_of, status_row, manager, world}
use da_concept.Base.{refl, List, [], ◌∷◌}
use da_concept.Node.Database.Row.{text, bytes, StatusRow}
use da_concept.Node.Database.Blobs.{has_id}
use da_concept.Node.Database.Blobs.Laws.{UniqueIds}
use da_concept.Node.Database.Statuses.{has_row}
use da_concept.Node.Manager.{queue_blob_fetch}
use da_concept.Node.World.{World}
use da_concept.Node.Sync.Schedule.{Schedule, IsFair, empty-IsFair}
use da_concept.Node.Database.Statuses.Laws.{UniquePairs}
use da_concept.Node.Invariant.{WellFormed}
use da_concept.Node.Invariant.Keys.{HasKeys}

abbrev pub text_world : World
text_world = world (row_of (text "7") ∷ [])

abbrev pub bytes_world : World
bytes_world = world (row_of (bytes 7) ∷ [])

-- An announced blob is queued and started.
abbrev pub idle : Schedule
idle = record { manager = manager; running = [] }

abbrev pub queued : Schedule
queued = record { manager = queue_blob_fetch manager 7 "h7"; running = [] }

pub idle-IsFair : IsFair idle
idle-IsFair = empty-IsFair manager refl refl

pub text_ids : UniqueIds text_world.db.blobs
unfolding has_id
text_ids = (refl, tt)

pub text_world-HasKeys : HasKeys text_world
unfolding has_row
text_world-HasKeys = record { ids = text_ids; pairs = (refl, tt); accounts = tt }

pub text_world-WellFormed : WellFormed [] text_world
text_world-WellFormed = record { keys = text_world-HasKeys; fair = idle-IsFair }

abbrev pub statuses : List StatusRow
statuses = status_row ∷ []

pub statuses-UniquePairs : UniquePairs statuses
unfolding has_row
statuses-UniquePairs = (refl, tt)
