-- ===== src/Node/Main.antt =====
-- da-node/src/main.rs. The subscriber of the logs is left out. `select!` runs the three tasks until
-- the first of them ends: which one that is, is given, and the others' steps until then are not in the
-- world here; for the endless loop also after how many rounds.
pub mod Laws
use da_concept.Base.{ℕ, String, Bool, Option, some}
use da_concept.Base.Outcome.{Outcome, ok, err, panic}
use da_concept.Node.Configuration.{CliSettings, ServerSettings, get_configuration}
use da_concept.Node.World.{Env, World, M, DaNodeError, pure, throw, joined, map_err, ◌>>=◌, ◌>>◌}
use da_concept.Node.Sync.{start_sync_loop}
use da_concept.Node.Startup.Host.{Host, get_connection_pool}
use da_concept.Node.Startup.Application
use da_concept.Node.Startup.Application.{Application}
use da_concept.Node.Startup.P2p
use da_concept.Node.Startup.P2p.{P2p}

-- The error of `main`, of the crate anyhow: its own, or one that `?` has converted.
pub data MainError : Type 0 where
  failed_to_read_configuration : MainError
  from : DaNodeError → MainError

-- The line that `report_exit` logs: a task has exited, failed, or did not complete.
pub data Report : Type 0 where
  exited : String → Report
  failed : String → DaNodeError → Report
  incomplete : String → Report

-- A panic of the task is a `JoinError`.
unfoldable pub report_exit : String → Outcome DaNodeError (Unit {0}) → Report
report_exit task_name (ok done) = exited task_name
report_exit task_name (err e) = failed task_name e
report_exit task_name panic = incomplete task_name

-- The task that ends first.
pub data Task : Type 0 where
  application_task p2p_task : Task
  sync_manager_task : ℕ → Task

module _ (env : Env) (host : Host) where
  unfoldable pub select : Task → Application → P2p → M MainError Report
  unfolding report_exit
  select application_task application p2p = do
    o ← joined (Application.run_until_stopped host application)
    pure (report_exit "API" o)
  select p2p_task application p2p = do
    o ← joined (P2p.run_until_stopped host p2p)
    pure (report_exit "P2P" o)
  select (sync_manager_task rounds) application p2p = do
    o ← joined (start_sync_loop env rounds)
    pure (report_exit "SyncManager" o)

  -- `main` after it has its configuration.
  unfoldable pub start : Task → ServerSettings → M MainError Report
  unfolding select
  start first configuration = do
    map_err from (get_connection_pool host configuration.database)
    p2p ← map_err from (P2p.try_from env configuration.p2p_config)
    application ← map_err from (Application.build host configuration)
    select first application p2p

  -- On what `get_configuration` returned. The result `Ok(())` carries the line that is logged.
  unfoldable pub main : Task → Outcome DaNodeError ServerSettings → M MainError Report
  unfolding start
  main first (ok configuration) = start first configuration
  main first (err e) = throw failed_to_read_configuration
  main first panic = λ w. (panic, w)
