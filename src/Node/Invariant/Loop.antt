-- ===== src/Node/Invariant/Loop.antt =====
-- The loop of da-node/src/node_api/sync.rs keeps the keys of the tables unique.
use da_concept.Base.{ℕ}
use da_concept.Node.World.{Env, World}
use da_concept.Node.Sync.{start_sync_loop}
use da_concept.Node.Sync.Ensures.Rounds.{start_sync_loop-Ensures}
use da_concept.Node.Invariant.{KeepsKeys-permits}
use da_concept.Node.Invariant.Keys.{HasKeys}

-- After any number of rounds of the loop the keys of the tables are unique if they were at its
-- start, whatever peers answer and wherever the database fails.
pub start_sync_loop-HasKeys :
    (env : Env) (rounds : ℕ) (w : World) → HasKeys w → HasKeys (start_sync_loop env rounds w).1
start_sync_loop-HasKeys env rounds w keys =
    ((start_sync_loop-Ensures KeepsKeys-permits
          (λ w m. record {
            keep = λ k. record { ids = k.ids; pairs = k.pairs; accounts = k.accounts };
          })
          env rounds).at
        w).keep
      keys
