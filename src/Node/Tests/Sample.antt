-- ===== src/Node/Tests/Sample.antt =====
-- A small environment and a small node, which run.
use da_concept.Base.{
  ℕ, ◌+◌, String, true, false, Option, none, some, List, [], ◌∷◌, str_eq, if◌then◌else◌,
}
use da_concept.Base.Int.{pos}
use da_concept.Node.Proto.{BlobMetadata, success, RequestType, fetch, SyncResponse, fetch_resp}
use da_concept.Node.Database.Row.{Key, text, bytes, BlobRow, pending, StatusRow}
use da_concept.Node.Manager.{SyncManager}
use da_concept.Node.World.{Env, World}

-- What the blob 7 is announced as, and its content under another name.
abbrev pub metadata : BlobMetadata
metadata = record {
  id = "7";
  hash = "h7";
  content_type = none;
  size = pos 3;
  owner_id = "1";
  public_key = b'k' ∷ [];
  metadata = none;
  created_at = "5";
  deleted_at = none;
}

abbrev reply : ℕ → String → Option RequestType → Option SyncResponse
reply n url (some (fetch blob_id peer include_content)) = some (record {
  status = success;
  message = "";
  response_data =
      some (fetch_resp (some (record { metadata = some metadata; content = 1 ∷ 2 ∷ 3 ∷ [] })));
})
reply n url _ = none

abbrev pub env : Env
env = record {
  db_fault = λ n. false;
  now = λ n. n + 100;
  connects = λ n url. true;
  reply = reply;
  sha256_hex = λ content. "other";
  uuid_to_string = λ id. "7";
  parse_uuid = λ s. if str_eq s "7" then some 7 else none;
  bind_uuid = λ id. bytes id;
  decode_uuid = λ key. elim key [ bytes n ↦ some n | text s ↦ none ];
  decode_string = λ key. elim key [ bytes n ↦ none | text s ↦ some s ];
  decode_i32 = λ count. some count;
  decode_i64 = λ sum. some sum;
  to_rfc3339 = λ t. "5";
  parse_from_rfc3339 = λ s. some 5;
}

-- A row of the blob 7, under a text or under the bytes of its UUID.
abbrev pub row_of : Key → BlobRow
row_of key = record {
  id = key;
  content = 1 ∷ 2 ∷ 3 ∷ [];
  metadata = none;
  content_type = none;
  size = pos 3;
  hash = some "h7";
  owner_id = bytes 1;
  public_key = b'k' ∷ [];
  created_at = 5;
  updated_at = 5;
  deleted_at = none;
}

abbrev pub status_row : StatusRow
status_row = record {
  blob_id = bytes 7;
  peer_node_id = "p";
  sync_status = pending;
  last_sync_attempt = none;
  last_successful_sync = none;
  retry_count = 0;
  created_at = 5;
  updated_at = 5;
}

abbrev pub manager : SyncManager
manager = record {
  config = record {
    node_id = "n";
    listen_addr = "127.0.0.1:50051";
    peers = "http://p" ∷ [];
    sync_interval_secs = 60;
    max_concurrent_syncs = 5;
    max_blob_size = 1000;
  };
  peers = ("p", record { peer_url = "http://p"; client = 0 }) ∷ [];
  blob_queue = [];
  in_progress = [];
}

abbrev pub world : List BlobRow → World
world rows = record {
  db = record { blobs = rows; sync_status = status_row ∷ []; users = [] };
  manager = manager;
  connected = [];
  cells = 1;
  ticks = 0;
  sent = [];
}
