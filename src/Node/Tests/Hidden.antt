-- ===== src/Node/Tests/Hidden.antt =====
-- A fetched blob that stays hidden, at concrete nodes.
use Prim.Native.String.{◌++◌ as ◌<>◌}
use da_concept.Base.{◌≡◌, refl, String, Bool, false, some, none, []}
use da_concept.Base.Outcome.{ok, err}
use da_concept.Crypto.Tests.Sample.{crates}
use da_concept.Node.Proto.{not_found, fetch_resp}
use da_concept.Node.Database.Row.{bytes}
use da_concept.Node.Server.{response, handle_fetch}
use da_concept.Node.Sync.Statements.{does_blob_exist}
use da_concept.Node.Sync.{fetch_and_store_blob}
use da_concept.Node.UserApi.Types.{database}
use da_concept.Node.UserApi.Query.{blobs}
use da_concept.Node.Replication.Hidden.{IsBinary, fetch_and_store_blob_hidden}
use da_concept.Node.Tests.Sample.{env, row_of, manager}
use da_concept.Node.Tests.Cases.{bytes_world}
use da_concept.Node.Tests.Replication.{joined, asking, peer, blob, asking-Asks, other-Serves}

joined-IsBinary : IsBinary joined env
joined-IsBinary = record { distinct = λ id j e. cc; undecoded = λ j. refl }

fetch_and_store_blob_hidden_example :
    ((does_blob_exist joined 7 (fetch_and_store_blob joined 7 "h7" asking).1).0 ≡ ok false)
    × ((requested asker : String) (include_content : Bool)
        → joined.parse_uuid requested ≡ some 7
        → (handle_fetch joined manager.config requested asker include_content
            (fetch_and_store_blob joined 7 "h7" asking).1).0
          ≡ ok (response not_found ("Blob not found: " <> requested) (some (fetch_resp none))))
    × ((blobs joined crates (fetch_and_store_blob joined 7 "h7" asking).1).0 ≡ err database)
fetch_and_store_blob_hidden_example =
    fetch_and_store_blob_hidden joined env manager.config manager.config crates bytes_world asking 7
      "h7" "p" peer [] (row_of (bytes 7)) blob joined-IsBinary asking-Asks other-Serves
