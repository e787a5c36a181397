-- ===== src/Node/Replication/EndToEnd.antt =====
-- From a user of one node to the table of another: `add_blob` of da-node/src/user_api/mod.rs, a round of
-- the loop of node_api/sync.rs there, `handle_announce` of node_api/server.rs and a round over the queue
-- here.
use da_concept.Base.{
  ℕ, ◌≤◌, ◌≡◌, refl, ap, ◌∙◌, String, true, false, none, some, List, [], ◌∷◌, ◌++◌, arith,
}
use da_concept.Base.Outcome.{ok}
use da_concept.Crypto.Crates.{Crates, IsLawful, IsAvailable}
use da_concept.Crypto.Types.{PrivateKey}
use da_concept.Crypto.PrivateKey
use da_concept.Crypto.KeyPair.{IsKey}
use da_concept.Crypto.Elgamal
use da_concept.Node.Proto.{RequestType}
use da_concept.Node.Database.Row.{Key, text, key_eq_iff, BlobRow}
use da_concept.Node.Database.Blobs.{exists_live, has_id, select_live}
use da_concept.Node.Manager.{P2pConfig, PeerClient, contains}
use da_concept.Node.Types.{Blob}
use da_concept.Node.World.{Env, World}
use da_concept.Node.Server
use da_concept.Node.Server.{handle_announce}
use da_concept.Node.Sync.{metadata_of, process_sync_queue}
use da_concept.Node.Sync.Started.{announcements_of}
use da_concept.Node.UserApi.Types.{User, BlobInput, blob_schema_from}
use da_concept.Node.UserApi.Web.{Web, IsSound}
use da_concept.Node.UserApi.Mutation.{add_blob}
use da_concept.Node.UserApi.Content.{IsPlain, IsUp}
use da_concept.Node.Replication.{arrives, Serves, Asks}
use da_concept.Node.Replication.Announced.{Announces, announced_arrives}
use da_concept.Node.Replication.Added.{IsIdle, settled, add_blob-Announced}

-- The two nodes read each other's UUIDs and hash alike, and the requests of the one at `url` are answered
-- by the other, in the world `v`.
pub record Linked (env env' : Env) (config : P2pConfig) (v : World) (url : String) : Type 0 where
  pub reads : (id : ℕ) → env'.parse_uuid (env.uuid_to_string id) ≡ some id
  pub read : (id : ℕ) → env.parse_uuid (env'.uuid_to_string id) ≡ some id
  pub same_hash : (content : List ℕ) → env'.sha256_hex content ≡ env.sha256_hex content
  pub reached :
      (n : ℕ) (request : RequestType)
      → env'.reply n url (some request) ≡ arrives (Server.sync env config (some request) v).0

-- A node without blobs and with an empty queue, whose first peer is connected.
pub record IsEmpty (env' : Env) (w' : World) (peer_id : String) (client : PeerClient)
    (more : List (String × PeerClient)) : Type 0 where
  pub answers : (n : ℕ) → env'.db_fault n ≡ false
  pub no_blobs : w'.db.blobs ≡ []
  pub no_queue : w'.manager.blob_queue ≡ []
  pub no_progress : w'.manager.in_progress ≡ []
  pub room : 1 ≤ w'.manager.config.max_concurrent_syncs
  pub first : w'.manager.peers ≡ (peer_id, client) ∷ more
  pub connected : contains client.client w'.connected ≡ true

select_live-append :
    (key : Key) (rows : List BlobRow) (row : BlobRow)
    → has_id key rows ≡ false
    → row.id ≡ key
    → row.deleted_at ≡ none
    → select_live key (rows ++ row ∷ []) ≡ some row
unfolding select_live has_id
select_live-append key [] row fresh e live = rw live (ground (arith, key_eq_iff row.id key))
select_live-append key (r ∷ rows) row fresh e live = ground (arith, select_live-append key rows row)

absent_live : (key : Key) (rows : List BlobRow) → rows ≡ [] → exists_live key rows ≡ false
unfolding exists_live
absent_live key rows e = rw e refl

absent_id : (key : Key) (rows : List BlobRow) → rows ≡ [] → has_id key rows ≡ false
unfolding has_id
absent_id key rows e = rw e refl

module _ (env : Env) (web : Web) (crates : Crates) (sound : IsSound env web) (law : IsLawful crates)
    (available : IsAvailable crates) (secret : String) (w : World) (up : IsUp env web w)
    (user : User) (key : PrivateKey) (valid : IsKey key)
    (import : PrivateKey.try_from crates user.private_key ≡ ok key) (input : BlobInput)
    (plain : IsPlain input.content) (idle : IsIdle w) (config config' : P2pConfig) (env' : Env)
    (w' : World) (peer_id : String) (client : PeerClient) (more : List (String × PeerClient)) where
  -- From a user of one node to the table of another, with lawful crates, random bytes at hand,
  -- sound services and a user whose stored key imports to a valid key, while both databases answer
  -- and new UUIDs are fresh: a blob of UTF-8 text without NUL bytes, of at most 32 MiB, is added
  -- at a node with an empty queue, room for a task, no statuses and connected peers with different
  -- ids, one at least, and after a round of its loop what it has sent is one announcement of the
  -- blob to every peer. When such an announcement reaches a node with no blobs, an empty queue and
  -- room for a task, whose first peer is connected and answered by the first node, and the nodes
  -- read each other's UUIDs and hash alike, then the next round over its queue succeeds, and its
  -- table has one blob, with the id that was announced as a text and a content that the user's key
  -- decrypts to the text that was added.
  pub add_blob_arrives :
      Linked env env' config (settled env web crates secret w user key input) client.peer_url
      → IsEmpty env' w' peer_id client more
      → (blob : Blob) × (new : BlobRow) × ((add_blob env web crates secret (some user) input w).0
          ≡ ok (blob_schema_from blob input.content))
        × ((settled env web crates secret w user key input).sent
            ≡ w.sent ++ announcements_of env blob w.manager.peers)
        × ((process_sync_queue env'
              (handle_announce env' config' (some (metadata_of env blob)) w').1).0
            ≡ ok tt)
        × ((process_sync_queue env'
              (handle_announce env' config' (some (metadata_of env blob)) w').1).1.db.blobs
            ≡ new ∷ [])
        × (new.id ≡ text (env.uuid_to_string blob.id))
        × (Elgamal.decrypt crates new.content key ≡ ok input.content)
  add_blob_arrives linked empty =
      let (blob, row, announced) =
        add_blob-Announced env web crates sound law available secret w up user key valid import
          input plain idle in
      let v : World = settled env web crates secret w user key input in
      let hash : String = env.sha256_hex row.content in
      let announces : Announces env' w' blob.id hash (metadata_of env blob) = record {
        parses = linked.reads blob.id;
        unknown = absent_live _ _ empty.no_blobs;
        hash = rw announced.hashed refl;
        no_queue = empty.no_queue;
        no_progress = empty.no_progress;
        room = empty.room;
      } in
      let asks : Asks env' env w' blob.id hash peer_id client more row blob = record {
        answers = empty.answers;
        absent = absent_live _ _ empty.no_blobs;
        fresh = absent_id _ _ empty.no_blobs;
        first = empty.first;
        connected = empty.connected;
        honest = linked.same_hash row.content;
      } in
      let serves : Serves env config v env' client.peer_url w'.manager.config.node_id blob.id row
          blob =
        record {
          answers = up.answers;
          parses = linked.read blob.id;
          live =
              rw announced.blobs (
                select_live-append _ w.db.blobs row announced.fresh announced.row_id
                  announced.live);
          decodes = announced.decodes;
          reached = λ n. linked.reached n _;
        } in
      let (new, done, table, id_eq, content, alive, manager) =
        announced_arrives env' env config' config v w' blob.id hash peer_id client more row blob
          (metadata_of env blob) announces asks serves in
      (
        blob,
        new,
        announced.answered,
        announced.sends,
        done,
        table ∙ ap (λ rows. rows ++ new ∷ []) empty.no_blobs,
        id_eq,
        rw content announced.opens,
      )
