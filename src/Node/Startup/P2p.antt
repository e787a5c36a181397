-- ===== src/Node/Startup/P2p.antt =====
-- `P2P` of da-node/src/startup.rs, with `create_grpc_server` of node_api/server.rs.
use da_concept.Base.{String, if◌then◌else◌}
use da_concept.Base.Outcome.{Outcome, ok}
use da_concept.Node.Manager.{P2pConfig}
use da_concept.Node.World.{
  Env, M, DaNodeError, RpcStatus, grpc, grpc_client, addr_parse, pure, throw, modify_manager, ◌>>=◌,
  ◌>>◌,
}
use da_concept.Node.Sync.{new}
use da_concept.Node.Startup.Host.{Host, lift, or_throw}

-- Its pool and its manager are those of the world.
pub record SyncServiceImpl : Type 0 where
  pub config : P2pConfig

unfoldable pub create_grpc_server : P2pConfig → Outcome RpcStatus SyncServiceImpl
create_grpc_server config = ok (record { config = config })

pub record P2p : Type 0 where
  pub connection_address : String
  pub grpc_server : SyncServiceImpl

-- The new manager is the one that the world shares from then on.
unfoldable pub try_from : Env → P2pConfig → M DaNodeError P2p
unfolding create_grpc_server
try_from env config = do
  sync_manager ← new env config
  modify_manager (λ m. sync_manager)
  grpc_server ← lift grpc (create_grpc_server config)
  pure (record { connection_address = config.listen_addr; grpc_server = grpc_server })

unfoldable pub run_until_stopped : Host → P2p → M DaNodeError (Unit {0})
run_until_stopped host self = do
  port ← or_throw (host.parse_socket_address self.connection_address) addr_parse
  if host.serve_grpc port then pure tt else throw grpc_client
