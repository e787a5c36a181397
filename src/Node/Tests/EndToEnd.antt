-- ===== src/Node/Tests/EndToEnd.antt =====
-- Two nodes, from the user of one to the table of the other, at concrete inputs.
use da_concept.Base.{ℕ, ◌≡◌, refl, Option, none, some, List, [], ◌∷◌, ◌++◌, arith}
use da_concept.Base.Outcome.{ok}
use da_concept.Crypto.Elgamal
use da_concept.Crypto.KeyPair.{key_of, key_of-IsKey, try_from-key_of}
use da_concept.Crypto.Tests.Sample.{crates, crates-IsLawful, crates-IsAvailable}
use da_concept.Node.Database.Row.{text, bytes, BlobRow}
use da_concept.Node.Database.Blobs.{has_id}
use da_concept.Node.Manager.{PeerClient, get_peer, contains}
use da_concept.Node.Types.{Blob}
use da_concept.Node.World.{Env, World}
use da_concept.Node.Server
use da_concept.Node.Server.{handle_announce}
use da_concept.Node.Sync.{metadata_of, process_sync_queue}
use da_concept.Node.Sync.Started.{announcements_of}
use da_concept.Node.UserApi.Types.{blob_schema_from}
use da_concept.Node.UserApi.Web.{IsSound}
use da_concept.Node.UserApi.Mutation.{add_blob}
use da_concept.Node.UserApi.Content.{IsUp}
use da_concept.Node.Replication.{arrives}
use da_concept.Node.Replication.Added.{IsIdle, settled, Announced, add_blob-Announced}
use da_concept.Node.Replication.EndToEnd.{Linked, IsEmpty, add_blob_arrives}
use da_concept.Node.Tests.Sample.{env, row_of, manager, world}
use da_concept.Node.Tests.Services.{write, read, read-write, web, web-IsSound}
use da_concept.Node.Tests.Content.{owner, input, input-IsPlain}

abbrev first_of : List ℕ → Option ℕ
first_of [] = none
first_of (n ∷ ns) = some n

-- The first node, whose UUIDs are written in unary, with a blob of another user.
abbrev here : Env
here = record env { uuid_to_string = λ id. write (id ∷ []); parse_uuid = λ s. first_of (read s) }

here-IsSound : IsSound here web
here-IsSound = record {
  decode-bind = web-IsSound.decode-bind;
  verify-hash = web-IsSound.verify-hash;
  decode-encode = web-IsSound.decode-encode;
  timestamp-add_days = web-IsSound.timestamp-add_days;
}

abbrev idle : World
idle = record (world []) {
  db = record { blobs = row_of (bytes 7) ∷ []; sync_status = []; users = [] };
  connected = 0 ∷ [];
}

idle-IsUp : IsUp here web idle
unfolding has_id
idle-IsUp = record { answers = λ n. refl; fresh = λ n. ground arith }

abbrev peer : PeerClient
peer = record { peer_url = "http://p"; client = 0 }

idle-IsIdle : IsIdle idle
unfolding get_peer contains
idle-IsIdle = record {
  no_queue = refl;
  no_progress = refl;
  room = omega arith;
  no_statuses = refl;
  peer = ("p", peer);
  others = [];
  known = refl;
  unique = (refl, tt);
  connected = λ id client e. ground arith;
}

add_blob-Announced_example :
    (blob : Blob) × (row : BlobRow) × Announced here web crates "s" idle owner
      (key_of 300)
      input
      blob
      row
add_blob-Announced_example =
    add_blob-Announced here web crates here-IsSound crates-IsLawful crates-IsAvailable "s" idle
      idle-IsUp owner (key_of 300) (key_of-IsKey 300) (try_from-key_of crates crates-IsLawful 300)
      input input-IsPlain idle-IsIdle

-- The second node, whose requests the first answers after its round.
abbrev after : World
after = settled here web crates "s" idle owner (key_of 300) input

abbrev there : Env
there = record here {
  reply = λ n url request. arrives (Server.sync here manager.config request after).0;
}

abbrev empty : World
empty = record (world []) { connected = 0 ∷ [] }

read_back : (id : ℕ) → first_of (read (write (id ∷ []))) ≡ some id
read_back id = rw (read-write (id ∷ [])) refl

nodes-Linked : Linked here there manager.config after "http://p"
nodes-Linked = record {
  reads = read_back;
  read = read_back;
  same_hash = λ content. refl;
  reached = λ n request. refl;
}

empty-IsEmpty : IsEmpty there empty "p" peer []
unfolding contains
empty-IsEmpty = record {
  answers = λ n. refl;
  no_blobs = refl;
  no_queue = refl;
  no_progress = refl;
  room = omega arith;
  first = refl;
  connected = refl;
}

add_blob_arrives_example :
    (blob : Blob) × (new : BlobRow) × ((add_blob here web crates "s" (some owner) input idle).0
      ≡ ok (blob_schema_from blob input.content))
    × (after.sent ≡ [] ++ announcements_of here blob (("p", peer) ∷ []))
    × ((process_sync_queue there
          (handle_announce there manager.config (some (metadata_of here blob)) empty).1).0
        ≡ ok tt)
    × ((process_sync_queue there
          (handle_announce there manager.config (some (metadata_of here blob)) empty).1).1.db.blobs
        ≡ new ∷ [])
    × (new.id ≡ text (here.uuid_to_string blob.id))
    × (Elgamal.decrypt crates new.content (key_of 300) ≡ ok input.content)
add_blob_arrives_example =
    add_blob_arrives here web crates here-IsSound crates-IsLawful crates-IsAvailable "s" idle
      idle-IsUp owner (key_of 300) (key_of-IsKey 300) (try_from-key_of crates crates-IsLawful 300)
      input input-IsPlain idle-IsIdle manager.config manager.config there empty "p" peer []
      nodes-Linked empty-IsEmpty
