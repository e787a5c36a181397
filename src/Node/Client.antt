-- ===== src/Node/Client.antt =====
-- da-node/src/node_api/client.rs. A request to a peer is an interaction with the environment.
pub mod Frame
use da_concept.Base.{
  ℕ, ◌+◌, String, Bool, true, false, Option, none, some, List, [], ◌∷◌, ◌++◌, ◌==◌, if◌then◌else◌,
}
use Prim.Native.String.{◌++◌ as ◌<>◌}
use da_concept.Base.Outcome.{Outcome, ok, err}
use da_concept.Node.Proto
use da_concept.Node.Proto.{
  BlobMetadata, RequestType, announce, fetch, delete, status, node_info, handshake, ResponseData,
  announce_resp, fetch_resp, delete_resp, status_resp, node_info_resp, handshake_resp,
  HandshakeStatus, PeerSyncStatus, SyncResponse,
}
use da_concept.Base.Int.{ℤ}
use da_concept.Node.Manager.{PeerClient, contains}
use da_concept.Node.World.{
  Env, World, M, DaNodeError, grpc_client, grpc, client_not_connected, invalid_response, remote,
  pure, throw, gets, tick, ◌>>=◌, ◌>>◌,
}

unfoldable pub new : String → M DaNodeError PeerClient
new peer_url w =
    (ok (record { peer_url = peer_url; client = w.cells }), record w { cells = w.cells + 1 })

module _ (env : Env) where
  unfoldable pub connect : PeerClient → M DaNodeError (Unit {0})
  connect self w =
      if env.connects w.ticks self.peer_url
      then (ok tt, record (tick w) { connected = self.client ∷ w.connected })
      else (err grpc_client, tick w)

  -- The shared cell is looked at again after the connection was made.
  unfoldable pub reconnect : PeerClient → M DaNodeError (Unit {0})
  unfolding connect contains
  reconnect self = do
    connect self
    there ← gets (λ w. contains self.client w.connected)
    if there then pure tt else throw (client_not_connected self.peer_url)

  unfoldable pub get_client : PeerClient → M DaNodeError (Unit {0})
  unfolding reconnect contains
  get_client self = do
    there ← gets (λ w. contains self.client w.connected)
    if there then pure tt else reconnect self

  -- The request of a connected client.
  unfoldable pub call : PeerClient → RequestType → M DaNodeError (Option SyncResponse)
  call self request w = (
    ok (env.reply w.ticks self.peer_url (some request)),
    record (tick w) { sent = w.sent ++ (self.peer_url, request) ∷ [] },
  )

  unfoldable pub answered : Option SyncResponse → M DaNodeError (Option ResponseData)
  answered none = throw (grpc remote)
  answered (some response) = pure response.response_data

  -- `client.sync(request).await?.into_inner().response_data`
  unfoldable pub sync : PeerClient → RequestType → M DaNodeError (Option ResponseData)
  unfolding answered
  sync self request = do get_client self; response ← call self request; answered response

  unfoldable pub send_handshake :
      PeerClient → String → String → M DaNodeError (HandshakeStatus × Option String)
  send_handshake self node_id node_url = do
    answer ← sync self (handshake node_id ("http://" <> node_url))
    elim answer [
      | some (handshake_resp st peer_id) ↦ pure (st, peer_id)
      | _ ↦ throw (invalid_response "Invalid response from handshake")
    ]

  unfoldable pub announce_blob : PeerClient → BlobMetadata → M DaNodeError Bool
  announce_blob self metadata = do
    answer ← sync self (announce (some metadata))
    pure (elim answer [ some (announce_resp accepted) ↦ accepted | _ ↦ false ])

  unfoldable pub fetch_blob : PeerClient → String → ℕ → Bool → M DaNodeError (Option Proto.Blob)
  fetch_blob self node_id blob_id include_content = do
    answer ← sync self (fetch (env.uuid_to_string blob_id) node_id include_content)
    pure (elim answer [ some (fetch_resp blob) ↦ blob | _ ↦ none ])

  unfoldable pub delete_blob : PeerClient → String → M DaNodeError Bool
  delete_blob self blob_id = do
    answer ← sync self (delete blob_id)
    pure (elim answer [ some (delete_resp deleted) ↦ deleted | _ ↦ false ])

  unfoldable pub get_node_info : PeerClient → M DaNodeError (Option (String × ℕ × ℤ × List String))
  get_node_info self = do
    answer ← sync self node_info
    pure (elim answer [
      | some (node_info_resp id count used capabilities) ↦ some (id, count, used, capabilities)
      | _ ↦ none
    ])

  unfoldable pub check_sync_status :
      PeerClient → String → M DaNodeError (Option (List PeerSyncStatus))
  check_sync_status self blob_id = do
    answer ← sync self (status blob_id)
    pure (elim answer [ some (status_resp statuses) ↦ some statuses | _ ↦ none ])
