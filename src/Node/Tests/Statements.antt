-- ===== src/Node/Tests/Statements.antt =====
-- The statements on the tables at concrete inputs.
use da_concept.Base.{◌≡◌}
use da_concept.Node.Database.Row.{bytes}
use da_concept.Node.Database.Statuses.Laws.{status_at}
use da_concept.Node.Database.Statuses.{pending_peers}
use da_concept.Node.Database.Statuses.Sharing.{is_among, waits, is_among-pending_peers}
use da_concept.Node.Tests.Cases.{statuses, statuses-UniquePairs}

is_among-pending_peers_example :
    is_among "p" (pending_peers (bytes 7) statuses) ≡ waits (status_at (bytes 7) "p" statuses)
is_among-pending_peers_example = is_among-pending_peers (bytes 7) "p" statuses statuses-UniquePairs
