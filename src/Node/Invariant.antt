-- ===== src/Node/Invariant.antt =====
-- The invariant of a node: the keys of its tables, and a fair queue; and that requests of other
-- nodes (da-node/src/node_api/server.rs), mutations of users (user_api/mod.rs) and the loop of
-- node_api/sync.rs keep it.
pub mod Requests
pub mod Mutations
pub mod Keys
pub mod Loop
use da_concept.Base.{ℕ, ◌≡◌, refl, String, Option, some, List}
use da_concept.Node.Database.Row.{Key, BlobRow, StatusRow, UserRow}
use da_concept.Node.Database.Blobs.{insert, mark_deleted}
use da_concept.Node.Database.Blobs.Laws.{insert-UniqueIds, mark_deleted-UniqueIds}
use da_concept.Node.Database.Statuses.Laws.{UniquePairs}
use da_concept.Node.Database.Users.{insert_user}
use da_concept.Node.Database.Users.Laws.{insert_user-UniqueUsers}
use da_concept.Node.Manager.{SyncManager, PeerClient, queue_blob_fetch}
use da_concept.Node.World.{World}
use da_concept.Node.World.Ensures.{IsFrame}
use da_concept.Node.Permits.{Permits}
use da_concept.Node.Sync.Schedule.{IsFair, enqueue-IsFair}
use Keys.{HasKeys}

-- The keys are unique, and the queue is fair while the tasks of `running` run.
pub record WellFormed (running : List ℕ) (w : World) : Type 0 where
  pub keys : HasKeys w
  pub fair : IsFair (record { manager = w.manager; running = running })

-- What keeps the keys.
pub record KeepsKeys (v w : World) : Type 0 where
  pub keep : HasKeys v → HasKeys w

HasKeys-same : (v w : World) → w.db ≡ v.db → HasKeys v → HasKeys w
HasKeys-same v w d k = record { ids = rw d k.ids; pairs = rw d k.pairs; accounts = rw d k.accounts }

KeepsKeys-frame : IsFrame KeepsKeys
KeepsKeys-frame = record {
  unseen = λ v w d m. record { keep = HasKeys-same v w d };
  and_then = λ u v w h k. record { keep = λ ok_u. k.keep (h.keep ok_u) };
}

pub KeepsKeys-permits : Permits KeepsKeys
KeepsKeys-permits = record {
  frame = KeepsKeys-frame;
  on_statuses = λ w rows h. record {
    keep = λ k. record { ids = k.ids; pairs = h k.pairs; accounts = k.accounts };
  };
  on_insert = λ w row rows live e. record {
    keep = λ k. record {
      ids = insert-UniqueIds row w.db.blobs rows e k.ids;
      pairs = k.pairs;
      accounts = k.accounts;
    };
  };
  on_delete = λ w now clock id. record {
    keep = λ k. record {
      ids = mark_deleted-UniqueIds now clock id w.db.blobs k.ids;
      pairs = k.pairs;
      accounts = k.accounts;
    };
  };
  on_user = λ w row rows e. record {
    keep = λ k. record {
      ids = k.ids;
      pairs = k.pairs;
      accounts = insert_user-UniqueUsers row w.db.users rows e k.accounts;
    };
  };
  on_enqueue = λ w id hash. record { keep = HasKeys-same w _ refl };
  on_peers = λ w peers cells. record { keep = HasKeys-same w _ refl };
}

pub record Keeps (running : List ℕ) (v w : World) : Type 0 where
  pub keep : WellFormed running v → WellFormed running w

-- A change that keeps the keys and the manager.
keeps_keys :
    (running : List ℕ) (v w : World) → w.manager ≡ v.manager → KeepsKeys v w → Keeps running v w
keeps_keys running v w m h = record {
  keep = λ ok_v. record { keys = h.keep ok_v.keys; fair = rw m ok_v.fair };
}

Keeps-frame : (running : List ℕ) → IsFrame (Keeps running)
Keeps-frame running = record {
  unseen = λ v w d m. keeps_keys running v w m (record { keep = HasKeys-same v w d });
  and_then = λ u v w h k. record { keep = λ ok_u. k.keep (h.keep ok_u) };
}

pub Keeps-permits : (running : List ℕ) → Permits (Keeps running)
Keeps-permits running =
    let keys = KeepsKeys-permits in
    record {
      frame = Keeps-frame running;
      on_statuses = λ w rows h. keeps_keys running w _ refl (keys.on_statuses w rows h);
      on_insert =
          λ w row rows live e. keeps_keys running w _ refl (keys.on_insert w row rows live e);
      on_delete = λ w now clock id. keeps_keys running w _ refl (keys.on_delete w now clock id);
      on_user = λ w row rows e. keeps_keys running w _ refl (keys.on_user w row rows e);
      on_enqueue = λ w id hash. record {
        keep = λ ok_w. record {
          keys = HasKeys-same w _ refl ok_w.keys;
          fair =
              enqueue-IsFair (record { manager = w.manager; running = running }) id hash ok_w.fair;
        };
      };
      on_peers = λ w peers cells. record {
        keep = λ ok_w. record {
          keys = HasKeys-same w _ refl ok_w.keys;
          fair = record {
            once = ok_w.fair.once;
            split = ok_w.fair.split;
            bounded = ok_w.fair.bounded;
          };
        };
      };
    }
