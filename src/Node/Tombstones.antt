-- ===== src/Node/Tombstones.antt =====
-- The ages of blobs (Node/Database/Blobs/Life) as a relation between worlds.
use da_concept.Base.{◌≤◌, ◌≡◌, refl, ap, arith}
use da_concept.Node.Database.Row.{Key}
use da_concept.Node.Database.Blobs.Life.{age, age-insert, age-mark_deleted}
use da_concept.Node.Manager.{SyncManager}
use da_concept.Node.World.{World}
use da_concept.Node.World.Ensures.{IsFrame}
use da_concept.Node.Permits.{Permits}

pub record Ages (v w : World) : Type 0 where
  pub older : (id : Key) → age id v.db.blobs ≤ age id w.db.blobs

same-Ages : (v w : World) → w.db.blobs ≡ v.db.blobs → Ages v w
same-Ages v w e = record { older = λ id. rw e (omega arith) }

Ages-frame : IsFrame Ages
Ages-frame = record {
  unseen = λ v w d m. same-Ages v w (ap (λ d. d.blobs) d);
  and_then = λ u v w h k. record { older = λ id. omega (arith, h.older id, k.older id) };
}

pub Ages-permits : Permits Ages
Ages-permits = record {
  frame = Ages-frame;
  on_statuses = λ w rows h. same-Ages w _ refl;
  on_insert =
      λ w row rows live e. record { older = λ id. (age-insert id row w.db.blobs rows live e).1 };
  on_delete =
      λ w now clock id. record { older = λ j. (age-mark_deleted now clock id j w.db.blobs).1 };
  on_user = λ w row rows e. same-Ages w _ refl;
  on_enqueue = λ w id hash. same-Ages w _ refl;
  on_peers = λ w peers cells. same-Ages w _ refl;
}

pub Ages-blind : (w : World) (m : SyncManager) → Ages w (record w { manager = m })
Ages-blind w m = same-Ages w _ refl
