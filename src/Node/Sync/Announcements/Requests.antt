-- ===== src/Node/Sync/Announcements/Requests.antt =====
-- The requests of `announce_blobs` of da-node/src/node_api/sync.rs, one at a time and in a list.
use da_concept.Base.{
  ℕ, ◌+◌, ◌≡◌, refl, sym, ◌∙◌, ap, String, true, false, Option, none, some, List, [], ◌∷◌, ◌++◌,
  append_assoc, append-nil,
}
use da_concept.Node.Proto.{RequestType, announce, SyncResponse}
use da_concept.Node.Database.Row.{Key, pending, StatusRow}
use da_concept.Node.Database.Statuses.{update, attempted, pending_peers}
use da_concept.Node.Database.Statuses.Laws.{UniquePairs, attempted-SetsStatus, update-UniquePairs}
use da_concept.Node.Database.Statuses.Sharing.{is_among}
use da_concept.Node.Database.Statuses.Attempts.{pending_peers-update}
use da_concept.Node.Manager.{PeerClient, get_peer, contains}
use da_concept.Node.Types.{Blob}
use da_concept.Node.Client.{get_client, call, answered, sync, announce_blob}
use da_concept.Node.World.{
  Env, World, M, DaNodeError, pure, throw, gets, attempt, utc_now, query, ◌>>=◌,
}
use da_concept.Node.Sync.Statements.{set_blob_status_as_pending}
use da_concept.Node.Sync.{metadata_of, after_announce}

-- Every peer that is known is connected.
abbrev pub AllConnected : World → Type 0
AllConnected w =
    (id : String) (client : PeerClient)
    → get_peer id w.manager.peers ≡ some client
    → contains client.client w.connected ≡ true

-- What has been sent between two worlds, and what has stayed.
pub record Told (w : World) (requests : List (String × RequestType)) (w' : World) : Type 0 where
  pub sends : w'.sent ≡ w.sent ++ requests
  pub same_connected : w'.connected ≡ w.connected
  pub same_blobs : w'.db.blobs ≡ w.db.blobs
  pub unique : UniquePairs w'.db.sync_status
  pub same_pending :
      (j : Key) → pending_peers j w'.db.sync_status ≡ pending_peers j w.db.sync_status

pub Told-nil :
    (w w' : World)
    → UniquePairs w.db.sync_status
    → w'.sent ≡ w.sent
    → w'.connected ≡ w.connected
    → w'.db ≡ w.db
    → Told w [] w'
Told-nil w w' u s c d = record {
  sends = s ∙ sym (append-nil w.sent);
  same_connected = c;
  same_blobs = rw d refl;
  unique = rw d u;
  same_pending = λ j. rw d refl;
}

-- What has been told since a later tick of the same world.
pub Told-ticked :
    (w w' : World) (n : ℕ) (xs : List (String × RequestType))
    → Told (record w { ticks = n }) xs w'
    → Told w xs w'
Told-ticked w w' n xs t = record {
  sends = t.sends;
  same_connected = t.same_connected;
  same_blobs = t.same_blobs;
  unique = t.unique;
  same_pending = t.same_pending;
}

pub Told-append :
    (w w1 w2 : World) (xs ys : List (String × RequestType))
    → Told w xs w1
    → Told w1 ys w2
    → Told w (xs ++ ys) w2
Told-append w w1 w2 xs ys a b = record {
  sends = b.sends ∙ ap (λ l. l ++ ys) a.sends ∙ append_assoc w.sent xs ys;
  same_connected = b.same_connected ∙ a.same_connected;
  same_blobs = b.same_blobs ∙ a.same_blobs;
  unique = b.unique;
  same_pending = λ j. b.same_pending j ∙ a.same_pending j;
}

module _ (env : Env) where
  -- The request that announces a blob to a peer.
  abbrev pub announcement : Blob → PeerClient → String × RequestType
  announcement blob client = (client.peer_url, announce (some (metadata_of env blob)))

  -- The announcements of one blob, and of all.
  unfoldable pub announcements_to :
      Blob → List (String × PeerClient) → List String → List (String × RequestType)
  announcements_to blob peers [] = []
  announcements_to blob peers (id ∷ ids) =
      let rest = announcements_to blob peers ids in
      elim (get_peer id peers) [ none ↦ rest | some client ↦ announcement blob client ∷ rest ]

  unfoldable pub announcements :
      List (String × PeerClient) → List StatusRow → List Blob → List (String × RequestType)
  unfolding announcements_to
  announcements peers statuses [] = []
  announcements peers statuses (blob ∷ blobs) =
      announcements_to blob peers (pending_peers (env.bind_uuid blob.id) statuses)
      ++ announcements peers statuses blobs

module _ (env : Env) (w : World) (blob : Blob) (peer_id : String) (client : PeerClient) where
  -- The world after a request that failed, and after one that was answered.
  abbrev unanswered : World
  unanswered = record w { ticks = w.ticks + 1; sent = w.sent ++ announcement env blob client ∷ [] }

  abbrev noted : World
  noted = record unanswered {
    ticks = w.ticks + 1 + 1 + 1;
    db = record w.db {
      sync_status =
          update (attempted pending (env.now (w.ticks + 1))) (env.now (w.ticks + 1 + 1))
            (env.bind_uuid blob.id) peer_id w.db.sync_status;
    };
  }

module _ (env : Env) where
  -- One announcement, then `next`.
  abbrev pub tell : Blob → String → PeerClient → M DaNodeError (Unit {0}) → M DaNodeError (Unit {0})
  tell blob peer_id client next =
      attempt (announce_blob env client (metadata_of env blob))
      >>= after_announce env blob.id peer_id next

module _ (env : Env) (up : (n : ℕ) → env.db_fault n ≡ false) where
  -- What it sends, and the world from which `next` goes on.
  pub tell_lem :
      (w : World) (blob : Blob) (peer_id : String) (client : PeerClient)
      (next : M DaNodeError (Unit {0}))
      → contains client.client w.connected ≡ true
      → UniquePairs w.db.sync_status
      → is_among peer_id (pending_peers (env.bind_uuid blob.id) w.db.sync_status) ≡ true
      → (w' : World) × (tell env blob peer_id client next w ≡ next w')
        × Told w (announcement env blob client ∷ []) w'
  unfolding announce_blob sync get_client call answered after_announce set_blob_status_as_pending
      utc_now query attempt gets throw ◌>>=◌ pure
  tell_lem w blob peer_id client next there u among =
      go (env.reply w.ticks client.peer_url (some request)) refl
    where
      request : RequestType
      request = announce (some (metadata_of env blob))

      go :
          (o : Option SyncResponse)
          → env.reply w.ticks client.peer_url (some request) ≡ o
          → (w' : World) × (tell env blob peer_id client next w ≡ next w')
            × Told w (announcement env blob client ∷ []) w'
      go none e = (
        unanswered env w blob peer_id client,
        rw (there, e) refl,
        record {
          sends = refl;
          same_connected = refl;
          same_blobs = refl;
          unique = u;
          same_pending = λ j. refl;
        },
      )
      go (some r) e = (
        noted env w blob peer_id client,
        rw (there, e, up (w.ticks + 1 + 1)) refl,
        record {
          sends = refl;
          same_connected = refl;
          same_blobs = refl;
          unique = update-UniquePairs (attempted-SetsStatus pending _) _ _ peer_id _ u;
          same_pending = λ j. pending_peers-update _ _ (env.bind_uuid blob.id) j peer_id _ u among;
        },
      )
