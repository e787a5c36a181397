-- ===== src/Node/Permits.antt =====
-- What a relation between worlds must allow so that every action of the node stays in it: each kind
-- of statement that writes, and each change of the manager that a request makes.
use mathlib.Core.Path.{subst}
use da_concept.Base.{ℕ, ◌≡◌, String, none, some, List, arith}
use da_concept.Node.Database.{Db}
use da_concept.Node.Database.Row.{Key, BlobRow, StatusRow, UserRow}
use da_concept.Node.Database.Blobs.{insert, mark_deleted}
use da_concept.Node.Database.Statuses.Laws.{UniquePairs}
use da_concept.Node.Database.Users.{insert_user}
use da_concept.Node.Manager.{PeerClient, queue_blob_fetch}
use da_concept.Node.World.{Env, World, query}
use da_concept.Node.World.Ensures.{Ensures, IsFrame, Ensures-query}

pub record Permits (Q : World → World → Type 0) : Type 0 where
  pub frame : IsFrame Q
  pub on_statuses :
      (w : World) (rows : List StatusRow)
      → (UniquePairs w.db.sync_status → UniquePairs rows)
      → Q w (record w { db = record w.db { sync_status = rows } })
  pub on_insert :
      (w : World) (row : BlobRow) (rows : List BlobRow)
      → row.deleted_at ≡ none
      → insert row w.db.blobs ≡ some rows
      → Q w (record w { db = record w.db { blobs = rows } })
  pub on_delete :
      (w : World) (now clock : ℕ) (id : Key)
      → Q w (record w { db = record w.db { blobs = mark_deleted now clock id w.db.blobs } })
  pub on_user :
      (w : World) (row : UserRow) (rows : List UserRow)
      → insert_user row w.db.users ≡ some rows
      → Q w (record w { db = record w.db { users = rows } })
  pub on_enqueue :
      (w : World) (id : ℕ) (hash : String)
      → Q w (record w { manager = queue_blob_fetch w.manager id hash })
  pub on_peers :
      (w : World) (peers : List (String × PeerClient)) (cells : ℕ)
      → Q w (record w { manager = record w.manager { peers = peers }; cells = cells })

-- A statement that cannot fail but with the database.
pub Ensures-write :
    {E : Type 0} {Q : World → World → Type 0} (frame : IsFrame Q) (env : Env) (e : E)
    (f : ℕ → Db → Db)
    → ((clock : ℕ) (w : World) → Q w (record w { db = f clock w.db }))
    → Ensures Q (query env e (λ clock db. some (tt {0}, f clock db)))
Ensures-write {Q = Q} frame env e f h = Ensures-query frame env e _ λ clock w a db p.
    let same : f clock w.db ≡ db = ground arith in
    subst (λ d. Q w (record w { db = d })) same (h clock w)
