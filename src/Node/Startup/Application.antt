-- ===== src/Node/Startup/Application.antt =====
-- `Application` and `run` of da-node/src/startup.rs.
use da_concept.Base.{ℕ, String, if◌then◌else◌}
use da_concept.Node.Configuration.{ServerSettings}
use da_concept.Node.World.{M, DaNodeError, io, pure, throw, ◌>>=◌}
use da_concept.Node.Startup.Host.{Host, or_throw}

-- `Serve<TcpListener, Router, Router>`: its listener, and the secret of the router's layer.
pub record Serve : Type 0 where
  pub listener : ℕ
  pub jwt_secret : String

unfoldable pub run : ℕ → String → M DaNodeError Serve
run client_listener jwt_secret =
    pure (record { listener = client_listener; jwt_secret = jwt_secret })

pub record Application : Type 0 where
  pub graphql_port : ℕ
  pub server : Serve

module _ (host : Host) where
  unfoldable pub build : ServerSettings → M DaNodeError Application
  unfolding run
  build configuration = do
    client_listener ← or_throw (host.bind configuration.client_server_endpoint) io
    graphql_port ← or_throw (host.port client_listener) io
    server ← run client_listener configuration.jwt_secret
    pure (record { graphql_port = graphql_port; server = server })

  unfoldable pub run_until_stopped : Application → M DaNodeError (Unit {0})
  run_until_stopped self = if host.serve_api self.server.listener then pure tt else throw io
