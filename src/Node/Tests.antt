-- ===== src/Node/Tests.antt =====
-- Concrete runs of a node, and its theorems at concrete inputs.
mod Sample
mod Users
mod Services
mod Access
mod Peers
mod Cases
mod Server
mod Queue
mod Replication
mod Content
mod Invariants
mod Statements
mod Announcements
mod Startup
mod Hidden
mod Revived
mod EndToEnd
