-- ===== src/Node/Sync/Started.antt =====
-- `fetch_and_store_blob` of da-node/src/node_api/sync.rs for a blob that is there: it becomes pending
-- at every peer.
use da_concept.Base.{
  ℕ, ◌+◌, ◌≡◌, refl, sym, String, true, false, none, some, List, [], ◌∷◌, ◌++◌, All, append_assoc,
  append-nil, str_eq, eq_iff, inl, inr, Bool-cases, arith,
}
use da_concept.Base.Outcome.{ok}
use da_concept.Node.Database.Blobs.{exists_live}
use da_concept.Node.Database.Statuses.{upsert_pending}
use da_concept.Node.Database.Statuses.Sharing.{is_among}
use da_concept.Node.Database.Statuses.Opened.{Opened, upsert_pending-Opened, is_among-append}
use da_concept.Node.Manager.{PeerClient, get_peer}
use da_concept.Node.World.{Env, World, pure, gets, map_err, utc_now, query, ◌>>=◌}
use da_concept.Node.Sync.Statements.{does_blob_exist, start_blob_sync_with_peer}
use da_concept.Node.Proto.{RequestType}
use da_concept.Node.Types.{Blob}
use da_concept.Node.Sync.Announcements.Requests.{announcement, announcements_to}
use da_concept.Node.Sync.{start_with_all, fetch_and_store_blob}

-- No two peers are known under one id.
abbrev pub UniqueNames : List (String × PeerClient) → Type 0
UniqueNames [] = Unit
UniqueNames ((id, client) ∷ peers) = (get_peer id peers ≡ none) × UniqueNames peers

abbrev pub names_of : List (String × PeerClient) → List String
names_of [] = []
names_of ((id, client) ∷ peers) = id ∷ names_of peers

-- What the calls leave alone.
pub record SameBut (w w' : World) : Type 0 where
  pub same_blobs : w'.db.blobs ≡ w.db.blobs
  pub same_manager : w'.manager ≡ w.manager
  pub same_connected : w'.connected ≡ w.connected
  pub same_sent : w'.sent ≡ w.sent

apart_head :
    (p : String) (client : PeerClient) (peers : List (String × PeerClient)) (names : List String)
    → ((q : String) → is_among q names ≡ true → get_peer q ((p, client) ∷ peers) ≡ none)
    → is_among p names ≡ false
unfolding get_peer
apart_head p client peers names apart = ground (arith, apart p, eq_iff p p)

apart_tail :
    (p : String) (client : PeerClient) (peers : List (String × PeerClient)) (names : List String)
    → get_peer p peers ≡ none
    → ((q : String) → is_among q names ≡ true → get_peer q ((p, client) ∷ peers) ≡ none)
    → (q : String) → is_among q (names ++ p ∷ []) ≡ true
    → get_peer q peers ≡ none
unfolding get_peer
apart_tail p client peers names single apart q h = elim (Bool-cases (str_eq p q)) [
  | inl same ↦ rw ((eq_iff p q).0 same) at single
  | inr differs ↦ ground (arith, is_among-append q p names, apart q)
]

module _ (env : Env) (up : (n : ℕ) → env.db_fault n ≡ false) (id : ℕ) where
  start_with_all_lem :
      (peers : List (String × PeerClient)) (names : List String) (w : World)
      → UniqueNames peers
      → ((q : String) → is_among q names ≡ true → get_peer q peers ≡ none)
      → Opened (env.bind_uuid id) names w.db.sync_status
      → let (r, w') = start_with_all env id peers w in
        (r ≡ ok tt)
        × Opened (env.bind_uuid id) (names ++ names_of peers) w'.db.sync_status
        × SameBut w w'
  unfolding start_with_all start_blob_sync_with_peer utc_now query ◌>>=◌ pure
  start_with_all_lem [] names w unique apart opened = (
    refl,
    rw (append-nil names) opened,
    record { same_blobs = refl; same_manager = refl; same_connected = refl; same_sent = refl },
  )
  start_with_all_lem ((p, client) ∷ peers) names w (single, unique) apart opened =
      let fresh : is_among p names ≡ false = apart_head p client peers names apart in
      let w1 : World = record w {
        ticks = w.ticks + 1 + 1 + 1;
        db = record w.db {
          sync_status =
              upsert_pending (env.now w.ticks) (env.now (w.ticks + 1)) (env.now (w.ticks + 1 + 1))
                (env.bind_uuid id) p w.db.sync_status;
        };
      } in
      let (done, all_opened, same) =
        start_with_all_lem peers (names ++ p ∷ []) w1 unique
          (apart_tail p client peers names single apart)
          (upsert_pending-Opened _ _ _ (env.bind_uuid id) p names w.db.sync_status fresh opened) in
      rw (up (w.ticks + 1 + 1)) (
        done,
        rw append_assoc at all_opened,
        record {
          same_blobs = same.same_blobs;
          same_manager = same.same_manager;
          same_connected = same.same_connected;
          same_sent = same.same_sent;
        },
      )

  -- A task for a blob that is there makes the blob pending at every peer.
  pub fetch_and_store_blob_there :
      (hash : String) (w : World)
      → exists_live (env.bind_uuid id) w.db.blobs ≡ true
      → UniqueNames w.manager.peers
      → Opened (env.bind_uuid id) [] w.db.sync_status
      → let (r, w') = fetch_and_store_blob env id hash w in
        (r ≡ ok tt)
        × Opened (env.bind_uuid id) (names_of w.manager.peers) w'.db.sync_status
        × SameBut w w'
  unfolding fetch_and_store_blob does_blob_exist gets map_err query ◌>>=◌ pure
  fetch_and_store_blob_there hash w there unique none_opened =
      let (done, opened, same) =
        start_with_all_lem w.manager.peers [] (record w { ticks = w.ticks + 1 }) unique (λ q h. cc)
          none_opened in
      rw (up w.ticks, there)
        (
          done,
          opened,
          record {
            same_blobs = same.same_blobs;
            same_manager = same.same_manager;
            same_connected = same.same_connected;
            same_sent = same.same_sent;
          },
        )

abbrev IsFound : List (String × PeerClient) → String × PeerClient → Type 0
IsFound peers (id, client) = get_peer id peers ≡ some client

IsFound-behind :
    (p : String) (client : PeerClient) (peers qs : List (String × PeerClient))
    → get_peer p peers ≡ none
    → All (IsFound peers) qs
    → All (IsFound ((p, client) ∷ peers)) qs
unfolding get_peer
IsFound-behind p client peers [] single h = tt
IsFound-behind p client peers ((q, c) ∷ qs) single (here, h) = (
  elim (Bool-cases (str_eq p q)) [
    | inl same ↦ cc (rw (sym ((eq_iff p q).0 same), single) at here)
    | inr differs ↦ rw differs here
  ],
  IsFound-behind p client peers qs single h,
)

pub All-IsFound :
    (peers : List (String × PeerClient)) → UniqueNames peers → All (IsFound peers) peers
unfolding get_peer
All-IsFound [] unique = tt
All-IsFound ((p, client) ∷ peers) (single, unique) = (
  ground (arith, eq_iff p p),
  IsFound-behind p client peers peers single (All-IsFound peers unique),
)

module _ (env : Env) (blob : Blob) where
  -- The announcement to each of some peers.
  abbrev pub announcements_of : List (String × PeerClient) → List (String × RequestType)
  announcements_of [] = []
  announcements_of ((id, client) ∷ peers) = announcement env blob client ∷ announcements_of peers

  announcements_to_found :
      (all ps : List (String × PeerClient))
      → All (IsFound all) ps
      → announcements_to env blob all (names_of ps) ≡ announcements_of ps
  unfolding announcements_to
  announcements_to_found all [] h = refl
  announcements_to_found all ((p, client) ∷ ps) (here, h) =
      rw (announcements_to, here, announcements_to_found all ps h) refl

  pub announcements_to_all :
      (peers : List (String × PeerClient))
      → UniqueNames peers
      → announcements_to env blob peers (names_of peers) ≡ announcements_of peers
  announcements_to_all peers unique = announcements_to_found peers peers (All-IsFound peers unique)
