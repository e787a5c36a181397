-- ===== src/Node/Manager.antt =====
-- The state of da-node/src/node_api/config.rs and sync.rs, and the manager's own methods. A map is
-- an association list, whose order stands for the order of iteration.
use da_concept.Base.{
  ℕ, ◌*◌, min, String, Bool, false, not, ◌||◌, Option, none, some, List, [], ◌∷◌, ◌++◌, length,
  take, drop, str_eq, ◌==◌, if◌then◌else◌,
}

pub record P2pConfig : Type 0 where
  pub node_id : String
  pub listen_addr : String
  pub peers : List String
  pub sync_interval_secs : ℕ
  pub max_concurrent_syncs : ℕ
  pub max_blob_size : ℕ

-- `impl Default`, on the fresh identifier of the node.
unfoldable pub default : String → P2pConfig
default fresh = record {
  node_id = fresh;
  listen_addr = "127.0.0.1:50051";
  peers = [];
  sync_interval_secs = 60;
  max_concurrent_syncs = 5;
  max_blob_size = 10 * 1024 * 1024;
}

unfoldable pub with_peers : P2pConfig → List String → P2pConfig
with_peers c peers = record c { peers = peers }

unfoldable pub with_node_id : P2pConfig → String → P2pConfig
with_node_id c node_id = record c { node_id = node_id }

unfoldable pub with_listen_addr : P2pConfig → String → P2pConfig
with_listen_addr c addr = record c { listen_addr = addr }

unfoldable pub with_sync_interval : P2pConfig → ℕ → P2pConfig
with_sync_interval c secs = record c { sync_interval_secs = secs }

-- `client` is the address of the shared cell that holds the connection.
pub record PeerClient : Type 0 where
  pub peer_url : String
  pub client : ℕ

-- The database pool is the database of the world around the manager. A UUID is its 128-bit number.
pub record SyncManager : Type 0 where
  pub config : P2pConfig
  pub peers : List (String × PeerClient)
  pub blob_queue : List (ℕ × String)
  pub in_progress : List ℕ

-- `HashMap::insert`
unfoldable pub insert_peer :
    String → PeerClient → List (String × PeerClient) → List (String × PeerClient)
insert_peer id client [] = (id, client) ∷ []
insert_peer id client ((j, c) ∷ peers) =
    let rest = insert_peer id client peers in
    if str_eq j id then (j, client) ∷ peers else (j, c) ∷ rest

-- `HashMap::get`
unfoldable pub get_peer : String → List (String × PeerClient) → Option PeerClient
get_peer id [] = none
get_peer id ((j, c) ∷ peers) = if str_eq j id then some c else get_peer id peers

-- `HashSet::contains`
unfoldable pub contains : ℕ → List ℕ → Bool
contains x [] = false
contains x (y ∷ ys) = x == y || contains x ys

-- `HashSet::remove`
unfoldable pub remove : ℕ → List ℕ → List ℕ
remove x [] = []
remove x (y ∷ ys) = let rest = remove x ys in if x == y then rest else y ∷ rest

unfoldable pub queue_blob_fetch : SyncManager → ℕ → String → SyncManager
unfolding contains
queue_blob_fetch m blob_id hash =
    if not (contains blob_id m.in_progress)
    then record m {
      blob_queue = m.blob_queue ++ (blob_id, hash) ∷ [];
      in_progress = blob_id ∷ m.in_progress;
    }
    else m

-- The batch that `process_sync_queue` pops under the lock.
unfoldable pub take_batch : SyncManager → List (ℕ × String) × SyncManager
take_batch m =
    let batch_size = min m.config.max_concurrent_syncs (length m.blob_queue) in
    (take batch_size m.blob_queue, record m { blob_queue = drop batch_size m.blob_queue })

-- `manager.in_progress.remove(&blob_id)` at the end of a task.
unfoldable pub finish : SyncManager → ℕ → SyncManager
unfolding remove
finish m blob_id = record m { in_progress = remove blob_id m.in_progress }
