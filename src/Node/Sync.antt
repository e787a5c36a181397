-- ===== src/Node/Sync.antt =====
-- `SyncManager` of da-node/src/node_api/sync.rs, and `sync_blob` of node_api/mod.rs. The logging is
-- left out. The tasks of a batch run one after the other here; Sync/Schedule has their
-- interleavings at the manager's lock.
pub mod Statements
pub mod SameBlobs
pub mod Blobs
pub mod Schedule
pub mod Ensures
pub mod Quiet
pub mod Queue
pub mod Announcing
pub mod Announcements
pub mod Started
pub mod Single
pub mod Loop
use da_concept.Base.{
  ℕ, zero, suc, String, Bool, true, false, not, ◌&&◌, ◌||◌, Option, none, some, List, [], ◌∷◌, ◌⊎◌,
  inl, inr, str_eq, if◌then◌else◌,
}
use mathlib.Core.Option.{get_or}
use da_concept.Base.Outcome.{Outcome, ok, err, panic}
use da_concept.Node.Proto
use da_concept.Node.Proto.{BlobMetadata}
use da_concept.Node.Manager.{
  P2pConfig, PeerClient, SyncManager, insert_peer, get_peer, queue_blob_fetch, take_batch, finish,
}
use da_concept.Node.World.{
  Env, World, M, DaNodeError, grpc, subtask, pure, throw, gets, modify_manager, attempt, joined,
  map_err, utc_now, ◌>>=◌, ◌>>◌,
}
use da_concept.Node.Types.{Blob}
use da_concept.Node.Client
use Statements.{
  does_blob_exist, start_blob_sync_with_peer, verify_received_blob, store_received_blob,
  set_blob_status_as_completed, set_blob_status_as_failed, set_blob_status_as_pending,
  get_blobs_to_share, get_pending_peers,
}

module _ (env : Env) where
  -- The loop of `new` over the configured peers.
  unfoldable pub greet_peers :
      P2pConfig
      → List String
      → List (String × PeerClient)
      → M DaNodeError (List (String × PeerClient))
  greet_peers config [] peers = pure peers
  greet_peers config (peer ∷ rest) peers = do
    peer_client ← Client.new peer
    answer ← attempt (Client.send_handshake env peer_client config.node_id config.listen_addr)
    elim answer [
      | inl (status, some node_id) ↦ greet_peers config rest (insert_peer node_id peer_client peers)
      | inl (status, none) ↦ greet_peers config rest peers
      | inr e ↦ greet_peers config rest peers
    ]

  unfoldable pub new : P2pConfig → M DaNodeError SyncManager
  unfolding greet_peers
  new config = do
    peers ← greet_peers config config.peers []
    pure (record { config = config; peers = peers; blob_queue = []; in_progress = [] })

  unfoldable pub sync_blob : ℕ → String → M DaNodeError (Unit {0})
  sync_blob blob_id hash = modify_manager (λ m. queue_blob_fetch m blob_id hash)

  -- The loop of `fetch_and_store_blob` over the peers of a blob that is there.
  unfoldable pub start_with_all : ℕ → List (String × PeerClient) → M DaNodeError (Unit {0})
  start_with_all blob_id [] = pure tt
  start_with_all blob_id ((peer_id, client) ∷ peers) = do
    start_blob_sync_with_peer env blob_id peer_id
    start_with_all blob_id peers

  -- A verified blob is stored and marked, both at the same time `now`.
  unfoldable pub store_verified : ℕ → String → BlobMetadata → Proto.Blob → M DaNodeError Bool
  store_verified blob_id peer_id metadata proto_blob = do
    now ← utc_now env
    store_received_blob env now metadata proto_blob
    set_blob_status_as_completed env now blob_id peer_id
    pure true

  -- A blob that a peer sent. The result is whether it was stored.
  unfoldable pub receive : ℕ → String → String → BlobMetadata → Proto.Blob → M DaNodeError Bool
  receive blob_id expected_hash peer_id metadata proto_blob = do
    to_store ← verify_received_blob env metadata proto_blob expected_hash blob_id peer_id
    if not to_store then pure false else store_verified blob_id peer_id metadata proto_blob

  -- What is done with a peer's answer; `next` asks the other peers.
  unfoldable pub after_fetch :
      ℕ
      → String
      → String
      → M DaNodeError (Unit {0})
      → Option Proto.Blob ⊎ DaNodeError
      → M DaNodeError (Unit {0})
  unfolding receive store_verified
  after_fetch blob_id expected_hash peer_id next (inl (some proto_blob)) =
      elim proto_blob.metadata [
        | none ↦ next
        | some metadata ↦ do
          stored ← receive blob_id expected_hash peer_id metadata proto_blob
          if stored then pure tt else next
      ]
  after_fetch blob_id expected_hash peer_id next (inl none) = do
    set_blob_status_as_failed env blob_id peer_id
    next
  after_fetch blob_id expected_hash peer_id next (inr e) = do
    set_blob_status_as_failed env blob_id peer_id
    next

  -- The loop over the peers that looks for the blob.
  unfoldable pub fetch_from :
      ℕ → String → String → List (String × PeerClient) → M DaNodeError (Unit {0})
  unfolding after_fetch
  fetch_from blob_id expected_hash node_id [] = pure tt
  fetch_from blob_id expected_hash node_id ((peer_id, client) ∷ peers) =
      let next = fetch_from blob_id expected_hash node_id peers in
      do
        start_blob_sync_with_peer env blob_id peer_id
        answer ← attempt (Client.fetch_blob env client node_id blob_id true)
        after_fetch blob_id expected_hash peer_id next answer

  unfoldable pub fetch_and_store_blob : ℕ → String → M DaNodeError (Unit {0})
  unfolding start_with_all fetch_from
  fetch_and_store_blob blob_id expected_hash = do
    peers ← gets (λ w. w.manager.peers)
    node_id ← gets (λ w. w.manager.config.node_id)
    exists ← map_err grpc (does_blob_exist env blob_id)
    if exists then start_with_all blob_id peers else fetch_from blob_id expected_hash node_id peers

  -- The end of a spawned task. A panic skips the removal, and the join reports it.
  unfoldable pub task_end : ℕ → Outcome DaNodeError (Unit {0}) → M DaNodeError Bool
  task_end blob_id panic = pure true
  task_end blob_id _ = do modify_manager (λ m. finish m blob_id); pure false

  unfoldable pub run_tasks : List (ℕ × String) → M DaNodeError Bool
  unfolding task_end
  run_tasks [] = pure false
  run_tasks ((blob_id, hash) ∷ tasks) = do
    outcome ← joined (fetch_and_store_blob blob_id hash)
    panicked ← task_end blob_id outcome
    later ← run_tasks tasks
    pure (panicked || later)

  unfoldable pub pop_batch : M DaNodeError (List (ℕ × String))
  pop_batch w = let (batch, m) = take_batch w.manager in (ok batch, record w { manager = m })

  unfoldable pub process_sync_queue : M DaNodeError (Unit {0})
  unfolding pop_batch run_tasks
  process_sync_queue = do
    blob_batch ← pop_batch
    panicked ← run_tasks blob_batch
    if panicked then throw subtask else pure tt

  abbrev pub metadata_of : Blob → BlobMetadata
  metadata_of blob = record {
    id = env.uuid_to_string blob.id;
    hash = get_or blob.hash "";
    content_type = blob.content_type;
    size = blob.size;
    owner_id = env.uuid_to_string blob.owner_id;
    public_key = blob.public_key;
    metadata = blob.metadata;
    created_at = env.to_rfc3339 blob.created_at;
    deleted_at = none;
  }

  -- `next` announces to the other peers.
  unfoldable pub after_announce :
      ℕ → String → M DaNodeError (Unit {0}) → Bool ⊎ DaNodeError → M DaNodeError (Unit {0})
  after_announce blob_id peer_id next (inl accepted) = do
    set_blob_status_as_pending env blob_id peer_id
    next
  after_announce blob_id peer_id next (inr e) = next

  unfoldable pub announce_to :
      Blob → List (String × PeerClient) → List String → M DaNodeError (Unit {0})
  unfolding after_announce
  announce_to blob peers [] = pure tt
  announce_to blob peers (peer_id ∷ rest) =
      let next = announce_to blob peers rest in
      elim (get_peer peer_id peers) [
        | none ↦ next
        | some client ↦ do
          answer ← attempt (Client.announce_blob env client (metadata_of blob))
          after_announce blob.id peer_id next answer
      ]

  unfoldable pub announce_each : List (String × PeerClient) → List Blob → M DaNodeError (Unit {0})
  unfolding announce_to
  announce_each peers [] = pure tt
  announce_each peers (blob ∷ blobs) = do
    pending ← get_pending_peers env blob.id
    announce_to blob peers pending
    announce_each peers blobs

  unfoldable pub announce_blobs : M DaNodeError (Unit {0})
  unfolding announce_each
  announce_blobs = do
    peers ← gets (λ w. w.manager.peers)
    blobs ← get_blobs_to_share env
    announce_each peers blobs

  unfoldable pub connect_all : List (String × PeerClient) → M DaNodeError (Unit {0})
  connect_all [] = pure tt
  connect_all ((peer_id, client) ∷ peers) = do
    _ ← attempt (Client.connect env client)
    connect_all peers

  -- `rounds` rounds of the endless loop; the sleep between them is not modelled.
  unfoldable pub sync_rounds : ℕ → M DaNodeError (Unit {0})
  unfolding process_sync_queue announce_blobs
  sync_rounds zero = pure tt
  sync_rounds (suc rounds) = do process_sync_queue; announce_blobs; sync_rounds rounds

  unfoldable pub start_sync_loop : ℕ → M DaNodeError (Unit {0})
  unfolding connect_all sync_rounds
  start_sync_loop rounds = do
    peers ← gets (λ w. w.manager.peers)
    connect_all peers
    sync_rounds rounds
