-- ===== src/Node/System.antt =====
-- A node as a whole: requests of other nodes, mutations of its users and rounds of its
-- synchronisation loop in any order, each as one step.
use da_concept.Base.{ℕ, ◌≡◌, refl, String, Option, none, arith}
use da_concept.Crypto.Crates.{Crates}
use da_concept.Node.Proto.{RequestType}
use da_concept.Node.Database.Row.{Key}
use da_concept.Node.Database.Blobs.{select_live}
use da_concept.Node.Database.Blobs.Life.{age, age_bound, select_live-age}
use da_concept.Node.Manager.{P2pConfig, SyncManager}
use da_concept.Node.World.{Env, World}
use da_concept.Node.Permits.{Permits}
use da_concept.Node.Server.{sync}
use da_concept.Node.Server.Ensures.{sync-Ensures}
use da_concept.Node.Sync.{start_sync_loop}
use da_concept.Node.Sync.Ensures.Rounds.{start_sync_loop-Ensures}
use da_concept.Node.UserApi.Web.{Web}
use da_concept.Node.UserApi.Ensures.{
  register-Ensures, login-Ensures, add_blob-Ensures, delete_blob-Ensures,
}
use da_concept.Node.Invariant.{KeepsKeys-permits}
use da_concept.Node.Invariant.Keys.{HasKeys}
use da_concept.Node.Invariant.Mutations.{Request, after}
use da_concept.Node.Tombstones.{Ages-permits, Ages-blind}

module _ (env : Env) (config : P2pConfig) (web : Web) (crates : Crates) (secret : String) where
  pub data Step (v : World) (w : World) : Type 0 where
    requested : (request : Option RequestType) → w ≡ (sync env config request v).1 → Step v w
    mutated : (request : Request) → w ≡ after env web crates secret request v → Step v w
    looped : (rounds : ℕ) → w ≡ (start_sync_loop env rounds v).1 → Step v w

  pub data Reach (s : World) : World → Type 0 where
    here : Reach s s
    next : {t u : World} → Reach s t → Step t u → Reach s u

  -- A relation that permits what actions write, and does not see the manager, holds of a step.
  module _ {Q : World → World → Type 0} (permits : Permits Q)
      (blind : (w : World) (m : SyncManager) → Q w (record w { manager = m })) where
    mutated-Ensures : (request : Request) (v : World) → Q v (after env web crates secret request v)
    unfolding after
    mutated-Ensures (Request.register input) v =
        (register-Ensures permits env web crates secret input).at v
    mutated-Ensures (Request.login input) v =
        (login-Ensures permits env web crates secret input).at v
    mutated-Ensures (Request.add_blob user input) v =
        (add_blob-Ensures permits env web crates secret user input).at v
    mutated-Ensures (Request.delete_blob user id) v = (delete_blob-Ensures permits env user id).at v

    Step-Ensures : {v w : World} → Step v w → Q v w
    Step-Ensures {v} (requested request e) = rw e ((sync-Ensures permits env config request).at v)
    Step-Ensures {v} (mutated request e) = rw e (mutated-Ensures request v)
    Step-Ensures {v} (looped rounds e) =
        rw e ((start_sync_loop-Ensures permits blind env rounds).at v)

    Reach-Ensures : {v w : World} → Reach v w → Q v w
    Reach-Ensures {v} here = permits.frame.unseen v v refl refl
    Reach-Ensures {v} (next {t} {u} reach step) =
        permits.frame.and_then v t u (Reach-Ensures reach) (Step-Ensures step)

  -- Whatever a node is asked, and however often its loop runs, the keys of its tables stay unique.
  Reach-HasKeys : {v w : World} → Reach v w → HasKeys v → HasKeys w
  Reach-HasKeys reach keys =
      (Reach-Ensures KeepsKeys-permits
          (λ w m. record {
            keep = λ k. record { ids = k.ids; pairs = k.pairs; accounts = k.accounts };
          })
          reach).keep
        keys

  -- Whatever a node is asked, and however often its loop runs, where the keys of the tables are unique
  -- and the row under some key of the table of blobs is deleted, the row under that key stays deleted
  -- and nothing is selected under it. The key is that of one row: the bytes of a UUID and its text
  -- are two keys.
  pub Reach-deleted :
      {v w : World}
      → Reach v w
      → HasKeys v
      → (id : Key) → age id v.db.blobs ≡ 2
      → (age id w.db.blobs ≡ 2) × (select_live id w.db.blobs ≡ none)
  Reach-deleted {v} {w} reach keys id deleted =
      let older = (Reach-Ensures Ages-permits Ages-blind reach).older id in
      let still : age id w.db.blobs ≡ 2 = omega (arith, older, age_bound id w.db.blobs) in
      (still, select_live-age id w.db.blobs (Reach-HasKeys reach keys).ids still)
