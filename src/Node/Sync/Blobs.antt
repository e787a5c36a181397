-- ===== src/Node/Sync/Blobs.antt =====
-- What the sync manager does to the table `blobs`: it adds verified rows at the end.
pub mod Relation
use da_concept.Base.{
  ℕ, ◌≡◌, ◌≢◌, refl, ◌∙◌, String, Bool, true, false, not, Option, none, some, List, [], ◌∷◌, ◌++◌,
  ◌⊎◌, inl, inr, eq_iff, if◌then◌else◌, arith,
}
use da_concept.Base.Outcome.{ok}
use da_concept.Node.Proto
use da_concept.Node.Proto.{BlobMetadata}
use da_concept.Node.Database.Row.{BlobRow}
use da_concept.Node.Database.Blobs.{insert}
use da_concept.Node.Manager.{PeerClient}
use da_concept.Node.Client.Frame.{fetch_blob_frame}
use da_concept.Node.World.{
  Env, World, M, DaNodeError, pure, query, utc_now, database_connection, ◌>>=◌,
}
use da_concept.Node.World.Ensures.{
  Ensures, frame_rules, Ensures-read, Ensures-pure, Ensures-utc_now, query_changes, Ensures-bind,
  bind_ok, bind_changes_ok, bind_changes, Ensures-attempt, Ensures-map_err, Ensures-gets,
}
use da_concept.Node.Sync.Statements.{
  does_blob_exist, verify_received_blob, store_received_blob, received_row,
}
use da_concept.Node.Sync.{
  receive, store_verified, after_fetch, fetch_from, start_with_all, fetch_and_store_blob,
}
use da_concept.Node.Sync.SameBlobs.{
  SameBlobs, SameBlobs-frame, statuses-SameBlobs, start-SameBlobs, failed-SameBlobs,
  completed-SameBlobs, start_with_all-SameBlobs,
}
use Relation.{
  IsVerified, Stores, nothing, one, Stores-after, Stores-before, Stores-bind, Stores-bind_stored,
  Stores-pure,
}

module _ (env : Env) where
  -- The test of `verify_received_blob`: one of the two hashes is the expected one.
  abbrev Matches : String → BlobMetadata → Proto.Blob → Type 0
  Matches h metadata blob = (env.sha256_hex blob.content ≡ h) ⊎ (metadata.hash ≡ h)

  module _ (h : String) (blob_id : ℕ) (peer_id : String) (metadata : BlobMetadata)
      (blob : Proto.Blob) where
    verify-SameBlobs : Ensures SameBlobs (verify_received_blob env metadata blob h blob_id peer_id)
    unfolding verify_received_blob
    verify-SameBlobs = search (frame_rules, SameBlobs-frame, statuses-SameBlobs)

    verify_true :
        (w : World)
        → (verify_received_blob env metadata blob h blob_id peer_id w).0 ≡ ok true
        → Matches h metadata blob
    unfolding verify_received_blob ◌>>=◌ pure utc_now query
    verify_true w e = ground (arith, eq_iff (env.sha256_hex blob.content) h, eq_iff metadata.hash h)

    store-Stores :
        (now : ℕ)
        → Matches h metadata blob
        → Ensures (Stores env h) (store_received_blob env now metadata blob)
    unfolding store_received_blob insert
    store-Stores now k = record {
      at = λ w.
          query_changes (λ u. Stores env h w u) env database_connection _ w (nothing refl)
            (λ clock a db p.
              one (received_row env now metadata blob)
                (record { hash = metadata.hash; claimed = refl; matches = k; live = refl })
                (ground arith));
    }

    store_rest-Stores :
        Matches h metadata blob
        → Ensures (Stores env h) (store_verified env blob_id peer_id metadata blob)
    unfolding store_verified
    store_rest-Stores k = Stores-bind env _ _ (Ensures-utc_now SameBlobs-frame env) λ now.
        Stores-bind_stored env _ _ (store-Stores now k) λ _.
          Ensures-bind SameBlobs-frame _ _ (completed-SameBlobs env now blob_id peer_id)
            λ _. Ensures-pure SameBlobs-frame true

    receive-Stores : Ensures (Stores env h) (receive env blob_id h peer_id metadata blob)
    unfolding receive
    receive-Stores = record {
      at = λ w.
          let same = verify-SameBlobs.at w in
          bind_changes (λ u. Stores env h w u) _ _ w (nothing same.blobs) (after w same);
    }
      where
        after :
            (w : World)
            → SameBlobs w (verify_received_blob env metadata blob h blob_id peer_id w).1
            → (to_store : Bool)
            → (verify_received_blob env metadata blob h blob_id peer_id w).0 ≡ ok to_store
            → Stores env h w
                ((if not to_store
                    then pure false
                    else store_verified env blob_id peer_id metadata blob)
                  (verify_received_blob env metadata blob h blob_id peer_id w).1).1
        after w same false e = Stores-after env h w _ _ same ((Stores-pure env {h = h} false).at _)
        after w same true e =
            Stores-after env h w _ _ same ((store_rest-Stores (verify_true w e)).at _)

    store_verified-true :
        (w : World) → (store_verified env blob_id peer_id metadata blob w).0 ≢ ok false
    unfolding store_verified pure
    store_verified-true w e =
        let (now, _, e1) = bind_ok _ _ w false e in
        let (_, _, e2) = bind_ok _ _ _ false e1 in let (_, _, e3) = bind_ok _ _ _ false e2 in cc e3

    receive-false :
        (w : World)
        → (receive env blob_id h peer_id metadata blob w).0 ≡ ok false
        → SameBlobs w (receive env blob_id h peer_id metadata blob w).1
    unfolding receive
    receive-false w e =
        let (to_store, e1, e2) = bind_ok _ _ w false e in
        bind_changes_ok (λ u. SameBlobs w u) _ _ w to_store e1 (go to_store e2)
      where
        go :
            (to_store : Bool)
            → ((if not to_store
                  then pure false
                  else store_verified env blob_id peer_id metadata blob)
                (verify_received_blob env metadata blob h blob_id peer_id w).1).0
              ≡ ok false
            → SameBlobs w
                ((if not to_store
                    then pure false
                    else store_verified env blob_id peer_id metadata blob)
                  (verify_received_blob env metadata blob h blob_id peer_id w).1).1
        go true e = absurd (store_verified-true _ e)
        go false e = unfold pure in verify-SameBlobs.at w

    received-Stores :
        (next : M DaNodeError (Unit {0}))
        → Ensures (Stores env h) next
        → Ensures (Stores env h) (
            receive env blob_id h peer_id metadata blob >>= λ stored.
            if stored then pure tt else next)
    received-Stores next k = record {
      at = λ w. bind_changes (λ u. Stores env h w u) _ _ w (receive-Stores.at w) (after w);
    }
      where
        after :
            (w : World) (stored : Bool)
            → (receive env blob_id h peer_id metadata blob w).0 ≡ ok stored
            → Stores env h w
                ((if stored then pure tt else next)
                  (receive env blob_id h peer_id metadata blob w).1).1
        after w true e = unfold pure in receive-Stores.at w
        after w false e = Stores-after env h w _ _ (receive-false w e) (k.at _)

  module _ (h : String) (blob_id : ℕ) where
    after_fetch-Stores :
        (peer_id : String) (next : M DaNodeError (Unit {0}))
        (answer : Option Proto.Blob ⊎ DaNodeError)
        → Ensures (Stores env h) next
        → Ensures (Stores env h) (after_fetch env blob_id h peer_id next answer)
    unfolding after_fetch
    after_fetch-Stores peer_id next (inl (some blob)) k = go blob.metadata
      where
        go :
            (o : Option BlobMetadata)
            → Ensures (Stores env h) (elim o [
              | none ↦ next
              | some metadata ↦ receive env blob_id h peer_id metadata blob >>= λ stored.
                  if stored then pure tt else next
            ])
        go none = k
        go (some metadata) = received-Stores h blob_id peer_id metadata blob next k
    after_fetch-Stores peer_id next (inl none) k =
        Stores-bind env _ _ (failed-SameBlobs env blob_id peer_id) (λ _. k)
    after_fetch-Stores peer_id next (inr e) k =
        Stores-bind env _ _ (failed-SameBlobs env blob_id peer_id) (λ _. k)

    fetch_from-Stores :
        (node_id : String) (peers : List (String × PeerClient))
        → Ensures (Stores env h) (fetch_from env blob_id h node_id peers)
    unfolding fetch_from
    fetch_from-Stores node_id [] = Stores-pure env tt
    fetch_from-Stores node_id ((peer_id, client) ∷ peers) =
        Stores-bind env _ _ (start-SameBlobs env blob_id peer_id) λ _.
          Stores-bind env _ _
            (Ensures-attempt SameBlobs _
              (fetch_blob_frame SameBlobs-frame env client node_id blob_id true))
            λ answer. after_fetch-Stores peer_id _ answer (fetch_from-Stores node_id peers)

    SameBlobs-Stores :
        {A : Type 0} (m : M DaNodeError A) → Ensures SameBlobs m → Ensures (Stores env h) m
    SameBlobs-Stores m k = record { at = λ w. nothing (k.at w).blobs }

    does_blob_exist-SameBlobs : Ensures SameBlobs (does_blob_exist env blob_id)
    unfolding does_blob_exist
    does_blob_exist-SameBlobs = Ensures-read SameBlobs-frame env _ _ λ clock d db a p. ground arith

    fetch_and_store_blob-Ensures : Ensures (Stores env h) (fetch_and_store_blob env blob_id h)
    unfolding fetch_and_store_blob
    fetch_and_store_blob-Ensures = Stores-bind env _ _ (Ensures-gets SameBlobs-frame _) λ peers.
        Stores-bind env _ _ (Ensures-gets SameBlobs-frame _) λ node_id.
          Stores-bind env _ _ (Ensures-map_err SameBlobs _ _ does_blob_exist-SameBlobs)
            λ there. go peers node_id there
      where
        go :
            (peers : List (String × PeerClient)) (node_id : String) (there : Bool)
            → Ensures (Stores env h) (
                if there
                then start_with_all env blob_id peers
                else fetch_from env blob_id h node_id peers)
        go peers node_id true = SameBlobs-Stores _ (start_with_all-SameBlobs env blob_id peers)
        go peers node_id false = fetch_from-Stores node_id peers

    -- Synchronising a blob leaves the table of blobs alone or adds one row at its end, which is not
    -- deleted and whose content has the expected hash or whose sender claims it, whatever the peers
    -- answer and wherever the database fails.
    pub fetch_and_store_blob-Stores :
        (w : World) → Stores env h w (fetch_and_store_blob env blob_id h w).1
    fetch_and_store_blob-Stores w = fetch_and_store_blob-Ensures.at w
