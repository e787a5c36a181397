-- ===== src/Node/Sync/Announcements.antt =====
-- What `announce_blobs` of da-node/src/node_api/sync.rs sends, and to whom.
pub mod Requests
use da_concept.Base.{
  ℕ, ◌+◌, ◌≡◌, refl, sym, ◌∙◌, ap, String, true, false, Option, none, some, List, [], ◌∷◌, ◌++◌,
  append_assoc, append-nil, All, eq_iff, arith,
}
use da_concept.Base.Outcome.{ok}
use da_concept.Node.Proto.{RequestType, announce, SyncResponse}
use da_concept.Node.Database.Row.{Key, pending, StatusRow}
use da_concept.Node.Database.Statuses.{update, attempted, pending_peers, to_share}
use da_concept.Node.Database.Statuses.Laws.{UniquePairs, attempted-SetsStatus, update-UniquePairs}
use da_concept.Node.Database.Statuses.Sharing.{is_among}
use da_concept.Node.Database.Statuses.Attempts.{pending_peers-update}
use da_concept.Node.Manager.{PeerClient, get_peer, contains}
use da_concept.Node.Types.{Blob, decode_all}
use da_concept.Node.Client.{get_client, call, answered, sync, announce_blob}
use da_concept.Node.World.{
  Env, World, M, DaNodeError, pure, throw, gets, attempt, utc_now, query, ◌>>=◌,
}
use da_concept.Node.Sync.Statements.{
  get_blobs_to_share, get_pending_peers, set_blob_status_as_pending,
}
use da_concept.Node.Sync.{metadata_of, after_announce, announce_to, announce_each, announce_blobs}
use Requests.{
  AllConnected, Told, Told-nil, Told-ticked, Told-append, announcement, announcements_to,
  announcements, tell, tell_lem,
}

is_among-cons :
    (y : String) (xs ys : List String)
    → All (λ x. is_among x ys ≡ true) xs
    → All (λ x. is_among x (y ∷ ys) ≡ true) xs
is_among-cons y [] ys h = tt
is_among-cons y (x ∷ xs) ys (here, h) = (ground (arith, here), is_among-cons y xs ys h)

is_among-All : (xs : List String) → All (λ x. is_among x xs ≡ true) xs
is_among-All [] = tt
is_among-All (x ∷ xs) = (ground (arith, eq_iff x x), is_among-cons x xs xs (is_among-All xs))

module _ (env : Env) (up : (n : ℕ) → env.db_fault n ≡ false) where
  -- The world in which some peers are to hear of a blob, and what the run over them does.
  record Ready (w : World) (blob : Blob) (peers : List (String × PeerClient)) (ids : List String)
      : Type 0 where
    there :
        (id : String) (client : PeerClient)
        → get_peer id peers ≡ some client
        → contains client.client w.connected ≡ true
    unique : UniquePairs w.db.sync_status
    among :
        All (λ id. is_among id (pending_peers (env.bind_uuid blob.id) w.db.sync_status) ≡ true) ids

  abbrev Tells : World → M DaNodeError (Unit {0}) → List (String × RequestType) → Type 0
  Tells w run requests = ((run w).0 ≡ ok tt) × Told w requests (run w).1

  announce_to-Tells :
      (w : World) (blob : Blob) (peers : List (String × PeerClient)) (ids : List String)
      → Ready w blob peers ids
      → Tells w (announce_to env blob peers ids) (announcements_to env blob peers ids)
  unfolding announce_to announcements_to pure
  announce_to-Tells w blob peers [] ready = (refl, Told-nil w w ready.unique refl refl refl)
  announce_to-Tells w blob peers (id ∷ ids) ready =
      go (get_peer id peers) refl (λ w1. announce_to-Tells w1 blob peers ids)
    where
      next : M DaNodeError (Unit {0})
      next = announce_to env blob peers ids

      rest : List (String × RequestType)
      rest = announcements_to env blob peers ids

      go :
          (o : Option PeerClient)
          → get_peer id peers ≡ o
          → ((w1 : World) → Ready w1 blob peers ids → Tells w1 next rest)
          → Tells w
              (elim o [ none ↦ next | some client ↦ tell env blob id client next ])
              (elim o [ none ↦ rest | some client ↦ announcement env blob client ∷ rest ])
      go none e later =
          later w (record { there = ready.there; unique = ready.unique; among = ready.among.1 })
      go (some client) e later =
          let (w1, same, told) =
            tell_lem env up w blob id client next (ready.there id client e) ready.unique
              ready.among.0 in
          let (done, after) = later w1 (record {
            there = λ j c f. rw told.same_connected (ready.there j c f);
            unique = told.unique;
            among = rw told.same_pending (ready.among.1);
          }) in
          (
            rw same done,
            rw same (Told-append w w1 _ (announcement env blob client ∷ []) rest told after),
          )

  announcements_same :
      (peers : List (String × PeerClient)) (a b : List StatusRow) (blobs : List Blob)
      → ((j : Key) → pending_peers j a ≡ pending_peers j b)
      → announcements env peers a blobs ≡ announcements env peers b blobs
  unfolding announcements
  announcements_same peers a b [] same = refl
  announcements_same peers a b (blob ∷ blobs) same =
      rw (same (env.bind_uuid blob.id), announcements_same peers a b blobs same) refl

  announce_each-Tells :
      (w : World) (peers : List (String × PeerClient)) (blobs : List Blob)
      → ((id : String) (client : PeerClient)
          → get_peer id peers ≡ some client
          → contains client.client w.connected ≡ true)
      → UniquePairs w.db.sync_status
      → Tells w (announce_each env peers blobs) (announcements env peers w.db.sync_status blobs)
  unfolding announce_each announcements get_pending_peers query ◌>>=◌ pure
  announce_each-Tells w peers [] there u = (refl, Told-nil w w u refl refl refl)
  announce_each-Tells w peers (blob ∷ blobs) there u =
      let ids : List String = pending_peers (env.bind_uuid blob.id) w.db.sync_status in
      let started : World = record w { ticks = w.ticks + 1 } in
      let (done, told) =
        announce_to-Tells started blob peers ids
          (record { there = there; unique = u; among = is_among-All ids }) in
      let w1 : World = (announce_to env blob peers ids started).1 in
      let (finished, after) =
        announce_each-Tells w1 peers blobs (λ j c f. rw told.same_connected (there j c f))
          told.unique in
      let same : announcements env peers w1.db.sync_status blobs
          ≡ announcements env peers w.db.sync_status blobs =
        announcements_same peers _ _ blobs told.same_pending in
      (
        rw (up w.ticks, done) finished,
        rw (up w.ticks, done)
            (Told-append w w1 _ (announcements_to env blob peers ids) _
              (Told-ticked w w1 (w.ticks + 1) _ told) (rw same at after)),
      )

  -- While the database answers, every known peer is connected, a blob and peer have one row at
  -- most and the rows to be shared decode, a round of announcements returns, and what it has sent
  -- is exactly one announcement of each blob that is to be shared to each known peer where the
  -- blob is pending or failed, with the metadata of the blob and to the address of the peer, in
  -- the order of the two selections. Which peers are to hear of which blob is as before, and so is
  -- the table of blobs.
  pub announce_blobs-sent :
      (w : World) (blobs : List Blob)
      → AllConnected w
      → UniquePairs w.db.sync_status
      → decode_all env (to_share w.db.sync_status w.db.blobs) ≡ some blobs
      → ((announce_blobs env w).0 ≡ ok tt)
        × ((announce_blobs env w).1.sent
            ≡ w.sent ++ announcements env w.manager.peers w.db.sync_status blobs)
        × ((j : Key)
            → pending_peers j (announce_blobs env w).1.db.sync_status
              ≡ pending_peers j w.db.sync_status)
        × ((announce_blobs env w).1.db.blobs ≡ w.db.blobs)
  unfolding announce_blobs get_blobs_to_share gets query ◌>>=◌ pure
  announce_blobs-sent w blobs there u shares =
      let (done, told) =
        announce_each-Tells (record w { ticks = w.ticks + 1 }) w.manager.peers blobs there u in
      rw (up w.ticks, shares) (done, told.sends, told.same_pending, told.same_blobs)
