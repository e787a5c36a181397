-- ===== src/Node/Replication/Hidden.antt =====
-- A fetched blob is stored under its id as a text: `store_received_blob` of
-- da-node/src/node_api/sync.rs against `does_blob_exist` there, `handle_fetch` of node_api/server.rs
-- and `Query::blobs` of user_api/mod.rs, which look for the bytes of a UUID.
use da_concept.Base.{
  ℕ, ◌≡◌, ◌≢◌, refl, sym, ◌∙◌, String, Bool, true, false, Option, none, some, List, [], ◌∷◌, ◌++◌,
  arith,
}
use Prim.Native.String.{◌++◌ as ◌<>◌}
use da_concept.Base.Outcome.{ok, err}
use da_concept.Crypto.Crates.{Crates}
use da_concept.Node.Proto.{not_found, fetch_resp}
use da_concept.Node.Database.Row.{Key, text, key_eq_iff, BlobRow}
use da_concept.Node.Database.Blobs.{select_live, exists_live, select_all}
use da_concept.Node.Database.Blobs.Laws.{exists_live-select_live, exists_live-append}
use da_concept.Node.Manager.{P2pConfig, PeerClient}
use da_concept.Node.Types.{Blob, decode}
use da_concept.Node.World.{Env, World, pure, query, ◌>>=◌}
use da_concept.Node.Server.{response, handle_fetch}
use da_concept.Node.Server.Answers.{handle_fetch_hidden}
use da_concept.Node.Sync.Statements.{does_blob_exist}
use da_concept.Node.Sync.{fetch_and_store_blob}
use da_concept.Node.UserApi.Types.{database}
use da_concept.Node.UserApi.Query.{blobs}
use da_concept.Node.UserApi.Content.Rows.{snoc, decode_all-append}
use da_concept.Node.Replication.{Serves, Asks, fetch_and_store_blob_arrives}

-- sqlx binds a UUID as its 16 bytes, which SQLite holds apart from every text, and does not decode one
-- from a text of another length.
pub record IsBinary (env env' : Env) : Type 0 where
  pub distinct : (id j : ℕ) → env.bind_uuid id ≢ text (env'.uuid_to_string j)
  pub undecoded : (j : ℕ) → env.decode_uuid (text (env'.uuid_to_string j)) ≡ none

select_all-append :
    (rows : List BlobRow) (row : BlobRow)
    → row.deleted_at ≡ none
    → select_all (rows ++ row ∷ []) ≡ select_all rows ++ row ∷ []
unfolding select_all
select_all-append [] row d = rw d refl
select_all-append (r ∷ rows) row d = ground (arith, select_all-append rows row d)

snoc-none : (o : Option (List Blob)) → snoc o none ≡ none
snoc-none none = refl
snoc-none (some found) = refl

missing :
    (id : Key) (rows : List BlobRow) → exists_live id rows ≡ false → select_live id rows ≡ none
missing id rows h = go (select_live id rows) (sym (exists_live-select_live id rows) ∙ h)
  where
    go : (o : Option BlobRow) → elim o [ none ↦ false | some row ↦ true ] ≡ false → o ≡ none
    go none e = refl
    go (some row) e = cc

module _ (env env' : Env) (config config' : P2pConfig) (crates : Crates) (v w : World) (id : ℕ)
    (h peer_id : String) (client : PeerClient) (more : List (String × PeerClient)) (row : BlobRow)
    (blob : Blob) where
  -- A blob that is fetched stays hidden. Where UUIDs are bound as bytes and not decoded from their
  -- texts, while both databases answer: when a node has fetched a blob, which it did not have,
  -- from its connected first peer, which serves it under the expected hash, then the sync manager
  -- still finds no such blob, another node that asks for it by any text of its id is told that
  -- there is none, and the query that lists the blobs of the node fails with a database error.
  pub fetch_and_store_blob_hidden :
      IsBinary env env'
      → Asks env env' w id h peer_id client more row blob
      → Serves env' config' v env client.peer_url w.manager.config.node_id id row blob
      → ((does_blob_exist env id (fetch_and_store_blob env id h w).1).0 ≡ ok false)
        × ((requested asker : String) (include_content : Bool)
            → env.parse_uuid requested ≡ some id
            → (handle_fetch env config requested asker include_content
                (fetch_and_store_blob env id h w).1).0
              ≡ ok (response not_found ("Blob not found: " <> requested) (some (fetch_resp none))))
        × ((blobs env crates (fetch_and_store_blob env id h w).1).0 ≡ err database)
  unfolding does_blob_exist blobs query ◌>>=◌ pure decode
  fetch_and_store_blob_hidden binary asks serves =
      let (new, done, table, id_eq, content, live, statuses) =
        fetch_and_store_blob_arrives env env' config' v w id h peer_id client more row blob asks
          serves in
      let w' : World = (fetch_and_store_blob env id h w).1 in
      let gone : exists_live (env.bind_uuid id) w'.db.blobs ≡ false = ground (
        arith,
        asks.absent,
        exists_live-append (env.bind_uuid id) w.db.blobs new,
        key_eq_iff new.id (env.bind_uuid id),
        binary.distinct id blob.id,
      ) in
      let undecoded : decode env new ≡ none = rw (id_eq, binary.undecoded blob.id) refl in
      (
        rw (asks.answers w'.ticks, gone) refl,
        λ requested asker include_content parses.
            (handle_fetch_hidden env config w' requested asker include_content id
              (asks.answers w'.ticks) parses (missing (env.bind_uuid id) w'.db.blobs gone)).0,
        rw
            (
              asks.answers w'.ticks,
              table,
              select_all-append w.db.blobs new live,
              decode_all-append env (select_all w.db.blobs) new,
              undecoded,
              snoc-none,
            )
            refl,
      )
