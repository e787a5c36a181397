-- ===== src/Node/Replication/Added.antt =====
-- A blob that a user adds, up to its announcement: `add_blob` of da-node/src/user_api/mod.rs, and the
-- round of the loop of node_api/sync.rs that follows it.
use da_concept.Base.{
  ℕ, ◌≤◌, ◌≡◌, refl, ap, ◌∙◌, String, true, false, none, some, List, [], ◌∷◌, ◌++◌, append-nil,
  arith,
}
use da_concept.Base.Outcome.{ok}
use da_concept.Crypto.Crates.{Crates, IsLawful, IsAvailable}
use da_concept.Crypto.Types.{PrivateKey}
use da_concept.Crypto.PrivateKey
use da_concept.Crypto.PublicKey
use da_concept.Crypto.KeyPair.{IsKey}
use da_concept.Crypto.Elgamal
use da_concept.Node.Database.Row.{Key, key_eq_iff, BlobRow, StatusRow}
use da_concept.Node.Database.Blobs.{exists_live, has_id}
use da_concept.Node.Database.Blobs.Laws.{exists_live-append}
use da_concept.Node.Database.Statuses.{pending_peers, to_share}
use da_concept.Node.Database.Statuses.Opened.{Opened, Opened-nil}
use da_concept.Node.Database.Statuses.Shares.{to_share-append}
use da_concept.Node.Manager.{PeerClient, queue_blob_fetch, contains}
use da_concept.Node.Types.{Blob, decode, decode_all}
use da_concept.Node.World.{Env, World, pure, ◌>>=◌}
use da_concept.Node.Sync.{sync_rounds, fetch_and_store_blob}
use da_concept.Node.Sync.Announcements.Requests.{AllConnected, announcements}
use da_concept.Node.Sync.Announcements.{announce_blobs-sent}
use da_concept.Node.Sync.Single.{tasked, process_sync_queue_single}
use da_concept.Node.Sync.Started.{
  UniqueNames, names_of, announcements_of, announcements_to_all, fetch_and_store_blob_there,
}
use da_concept.Node.UserApi.Types.{User, BlobInput, blob_schema_from}
use da_concept.Node.UserApi.Web.{Web, IsSound}
use da_concept.Node.UserApi.Mutation.{blob_row, add_blob}
use da_concept.Node.UserApi.Content.{IsPlain, IsUp, stored_blob, decode-blob_row, add_blob_lem}

-- A node with an empty queue, no statuses yet, and connected peers, of which there is one at least.
pub record IsIdle (w : World) : Type 0 where
  pub no_queue : w.manager.blob_queue ≡ []
  pub no_progress : w.manager.in_progress ≡ []
  pub room : 1 ≤ w.manager.config.max_concurrent_syncs
  pub no_statuses : w.db.sync_status ≡ []
  pub peer : String × PeerClient
  pub others : List (String × PeerClient)
  pub known : w.manager.peers ≡ peer ∷ others
  pub unique : UniqueNames w.manager.peers
  pub connected : AllConnected w

-- The name of the first peer, written out.
name_first :
    (key : Key) (peer : String × PeerClient) (others peers : List (String × PeerClient))
    (rows : List StatusRow)
    → peers ≡ peer ∷ others
    → Opened key (names_of peers) rows
    → Opened key (peer.0 ∷ names_of others) rows
name_first key peer others peers rows e opened = rw e at opened

module _ (env : Env) (w : World) (idle : IsIdle w) (up : (n : ℕ) → env.db_fault n ≡ false) (id : ℕ)
    (hash : String) (row : BlobRow) (blob : Blob) (ticks : ℕ) where
  -- The world after the mutation, and the one in which the task runs.
  abbrev pub added : World
  added = record w {
    db = record w.db { blobs = w.db.blobs ++ row ∷ [] };
    manager = queue_blob_fetch w.manager id hash;
    ticks = ticks;
  }

  abbrev stocked : World
  stocked = record w { db = record w.db { blobs = w.db.blobs ++ row ∷ [] }; ticks = ticks }

  queue :
      queue_blob_fetch w.manager id hash
      ≡ record w.manager { blob_queue = (id, hash) ∷ []; in_progress = id ∷ [] }
  unfolding queue_blob_fetch contains
  queue = rw (idle.no_progress, idle.no_queue)

  -- The round that follows.
  pub round :
      has_id (env.bind_uuid id) w.db.blobs ≡ false
      → row.id ≡ env.bind_uuid id
      → row.deleted_at ≡ none
      → decode env row ≡ some blob
      → blob.id ≡ id
      → ((sync_rounds env 1 added).0 ≡ ok tt)
        × ((sync_rounds env 1 added).1.sent ≡ w.sent ++ announcements_of env blob w.manager.peers)
        × ((sync_rounds env 1 added).1.db.blobs ≡ w.db.blobs ++ row ∷ [])
  unfolding sync_rounds ◌>>=◌ pure announcements decode_all
  round fresh row_id live decodes blob_id =
      let key : Key = env.bind_uuid id in
      let there : exists_live key (w.db.blobs ++ row ∷ []) ≡ true =
        ground
          (arith, exists_live-append key w.db.blobs row, row_id, live, key_eq_iff row.id key) in
      let running : World = tasked env stocked id hash idle.room in
      let (done, opened, same) =
        fetch_and_store_blob_there env up id hash running there idle.unique
          (rw idle.no_statuses (Opened-nil key)) in
      let task : World = (fetch_and_store_blob env id hash running).1 in
      let settled : World = record task {
        manager = record w.manager { blob_queue = []; in_progress = [] };
      } in
      let named =
        name_first key idle.peer idle.others w.manager.peers task.db.sync_status idle.known
          opened in
      let shares : decode_all env (to_share task.db.sync_status task.db.blobs) ≡ some (blob ∷ []) =
        rw
          (
            same.same_blobs,
            to_share-append key idle.peer.0 (names_of idle.others) task.db.sync_status named
                w.db.blobs row fresh row_id live,
            decodes,
          )
          refl in
      let (told, sends, kept, tables) =
        announce_blobs-sent env up settled (blob ∷ [])
          (λ j c f. rw same.same_connected (idle.connected j c f)) named.unique shares in
      let sent : announcements env w.manager.peers task.db.sync_status (blob ∷ [])
          ≡ announcements_of env blob w.manager.peers =
        let pends : pending_peers (env.bind_uuid blob.id) task.db.sync_status
            ≡ names_of w.manager.peers =
          rw blob_id opened.pends in
        rw (pends, append-nil) (announcements_to_all env blob w.manager.peers idle.unique) in
      rw (queue, process_sync_queue_single env stocked id hash idle.room done, told)
        (refl, rw (sends, sent, same.same_sent) refl, tables ∙ same.same_blobs)

module _ (env : Env) (web : Web) (crates : Crates) (secret : String) (w : World) (user : User)
    (key : PrivateKey) (input : BlobInput) where
  -- The node after the mutation and one round of its loop.
  abbrev pub settled : World
  settled = (sync_rounds env 1 (add_blob env web crates secret (some user) input w).1).1

  -- What is added, as it is answered, announced and stored.
  pub record Announced (blob : Blob) (row : BlobRow) : Type 0 where
    pub fresh : has_id (env.bind_uuid blob.id) w.db.blobs ≡ false
    pub row_id : row.id ≡ env.bind_uuid blob.id
    pub live : row.deleted_at ≡ none
    pub decodes : decode env row ≡ some blob
    pub hashed : blob.hash ≡ some (env.sha256_hex row.content)
    pub opens : Elgamal.decrypt crates row.content key ≡ ok input.content
    pub answered :
        (add_blob env web crates secret (some user) input w).0
        ≡ ok (blob_schema_from blob input.content)
    pub returns :
        (sync_rounds env 1 (add_blob env web crates secret (some user) input w).1).0 ≡ ok tt
    pub sends : settled.sent ≡ w.sent ++ announcements_of env blob w.manager.peers
    pub blobs : settled.db.blobs ≡ w.db.blobs ++ row ∷ []

module _ (env : Env) (web : Web) (crates : Crates) (sound : IsSound env web) (law : IsLawful crates)
    (available : IsAvailable crates) (secret : String) (w : World) (up : IsUp env web w)
    (user : User) (key : PrivateKey) (valid : IsKey key)
    (import : PrivateKey.try_from crates user.private_key ≡ ok key) (input : BlobInput)
    (plain : IsPlain input.content) (idle : IsIdle w) where
  -- With lawful crates, random bytes at hand, sound services and a user whose stored key imports
  -- to a valid key, while the database answers and new UUIDs are fresh, at a node with an empty
  -- queue, room for a task, no statuses and connected peers with different ids, one at least: a
  -- blob of UTF-8 text without NUL bytes, of at most 32 MiB, is added, the next round of the loop
  -- succeeds, and what the two have sent is exactly one announcement of the blob to every peer;
  -- the blob is in the table, live, under a new id, with the hash of its content, which the user's
  -- key decrypts to the text.
  pub add_blob-Announced :
      (blob : Blob) × (row : BlobRow) × Announced env web crates secret w user key input blob row
  add_blob-Announced =
      let (clock, id, stored, ticks, opens, fresh, e) =
        add_blob_lem env web crates sound law available secret w up user key valid import input
          plain in
      let related = PublicKey.get_encoded_public_key crates key.public_key in
      let row = blob_row env web crates secret clock id user input related stored in
      let blob = stored_blob env web crates sound clock id user input related stored in
      let decodes =
        decode-blob_row env web crates sound secret clock id user input related stored in
      let (returns, sends, blobs) =
        round env w idle up.answers id (env.sha256_hex stored) row blob ticks fresh refl refl
          decodes refl in
      (
        blob,
        row,
        record {
          fresh = fresh;
          row_id = refl;
          live = refl;
          decodes = decodes;
          hashed = refl;
          opens = opens;
          answered = rw e refl;
          returns = rw e returns;
          sends = ap (λ p. (sync_rounds env 1 p.1).1.sent) e ∙ sends;
          blobs = ap (λ p. (sync_rounds env 1 p.1).1.db.blobs) e ∙ blobs;
        },
      )
