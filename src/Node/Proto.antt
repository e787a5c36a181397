-- ===== src/Node/Proto.antt =====
-- The messages of da-node/proto/sync.proto.
use da_concept.Base.{Text, ℕ, String, Bool, Option, List}
use da_concept.Base.Int.{ℤ}

pub data SyncStatus : Type 0 where
  unspecified success error not_found already_exists unauthorized : SyncStatus

pub record BlobMetadata : Type 0 where
  pub id : String
  pub hash : String
  pub content_type : Option String
  pub size : ℤ
  pub owner_id : String
  pub public_key : Text
  pub metadata : Option String
  pub created_at : String
  pub deleted_at : Option String

pub record Blob : Type 0 where
  pub metadata : Option BlobMetadata
  pub content : List ℕ

pub record PeerSyncStatus : Type 0 where
  pub peer_id : String
  pub blob_id : String
  pub status : String
  pub last_sync_attempt : Option String
  pub last_successful_sync : Option String

pub data HandshakeStatus : Type 0 where
  acknowledged declined : HandshakeStatus

-- The `oneof` of a request; its messages' fields are the constructors' arguments.
pub data RequestType : Type 0 where
  -- metadata
  announce : Option BlobMetadata → RequestType
  -- blob_id, peer_id, include_content
  fetch : String → String → Bool → RequestType
  -- blob_id
  delete : String → RequestType
  -- blob_id
  status : String → RequestType
  node_info : RequestType
  -- node_id, node_url
  handshake : String → String → RequestType

-- The `oneof` of a response.
pub data ResponseData : Type 0 where
  -- accepted
  announce_resp : Bool → ResponseData
  -- blob
  fetch_resp : Option Blob → ResponseData
  -- deleted
  delete_resp : Bool → ResponseData
  -- peer_statuses
  status_resp : List PeerSyncStatus → ResponseData
  -- node_id, blob_count, storage_used, capabilities
  node_info_resp : String → ℕ → ℤ → List String → ResponseData
  -- status, peer_id
  handshake_resp : HandshakeStatus → Option String → ResponseData

pub record SyncResponse : Type 0 where
  pub status : SyncStatus
  pub message : String
  pub response_data : Option ResponseData
