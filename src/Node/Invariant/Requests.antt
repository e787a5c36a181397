-- ===== src/Node/Invariant/Requests.antt =====
-- Requests keep the invariant, whatever the database does.
use da_concept.Base.{ℕ, Option, List}
use da_concept.Node.Proto.{RequestType}
use da_concept.Node.Manager.{P2pConfig}
use da_concept.Node.World.{Env, World}
use da_concept.Node.Server.{sync}
use da_concept.Node.Server.Ensures.{sync-Ensures}
use da_concept.Node.Invariant.{WellFormed, Keeps-permits}

-- Every request, also one that fails or that meets a failing database, keeps the node well formed:
-- the keys of the tables unique, and the queue fair.
pub sync-WellFormed :
    (env : Env) (config : P2pConfig) (running : List ℕ) (request : Option RequestType) (w : World)
    → WellFormed running w
    → WellFormed running (sync env config request w).1
sync-WellFormed env config running request w valid =
    ((sync-Ensures (Keeps-permits running) env config request).at w).keep valid
