-- ===== src/Node/Tests/Peers.antt =====
-- A handshake at concrete inputs.
use da_concept.Base.{◌+◌, ◌≡◌, String, some, [], if◌then◌else◌, str_eq}
use da_concept.Base.Outcome.{ok}
use da_concept.Node.Proto.{success, handshake_resp, acknowledged}
use da_concept.Node.Manager.{get_peer}
use da_concept.Node.Server.{response, handle_handshake}
use da_concept.Node.Server.Peers.{handle_handshake_lem}
use da_concept.Node.Tests.Sample.{env, manager, world}

handle_handshake_lem_example :
    ((handle_handshake env manager.config "q" "http://q" (world [])).0
      ≡ ok (
          response success "Handshake successful"
            (some (handshake_resp acknowledged (some manager.config.node_id)))))
    × ((j : String)
        → get_peer j (handle_handshake env manager.config "q" "http://q" (world [])).1.manager.peers
          ≡ (if str_eq "q" j
              then some (record { peer_url = "http://q"; client = (world []).cells })
              else get_peer j (world []).manager.peers))
    × ((handle_handshake env manager.config "q" "http://q" (world [])).1.cells
        ≡ (world []).cells + 1)
    × ((handle_handshake env manager.config "q" "http://q" (world [])).1.db ≡ (world []).db)
    × ((handle_handshake env manager.config "q" "http://q" (world [])).1.manager.blob_queue
        ≡ (world []).manager.blob_queue)
handle_handshake_lem_example = handle_handshake_lem env manager.config "q" "http://q" (world [])
