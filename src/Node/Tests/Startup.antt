-- ===== src/Node/Tests/Startup.antt =====
-- The start of a concrete node, and the context of a request.
use da_concept.Base.{◌≡◌, true, false, some, []}
use da_concept.Base.Outcome.{ok}
use da_concept.Node.Configuration.{ServerSettings}
use da_concept.Node.Startup.Host.{Host}
use da_concept.Node.Main.{sync_manager_task, main}
use da_concept.Node.Main.Laws.{exit, listens, main_lem}
use da_concept.Node.Tests.Sample.{env, manager, world}

abbrev host : Host
host = record {
  connects = λ address. true;
  migrates = true;
  bind = λ endpoint. some 3;
  port = λ listener. some 8080;
  serve_api = λ listener. true;
  parse_socket_address = λ address. some 50051;
  serve_grpc = λ port. false;
}

abbrev settings : ServerSettings
settings = record {
  database = record { path = "data"; name = "da" };
  client_server_endpoint = "127.0.0.1:8080";
  jwt_secret = "s";
  p2p_config = manager.config;
}

main_lem_example : exit (main env host (sync_manager_task 2) (ok settings) (world [])).0 ≡ ok tt
unfolding listens
main_lem_example = main_lem env host (sync_manager_task 2) (ok settings) (world [])
