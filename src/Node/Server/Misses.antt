-- ===== src/Node/Server/Misses.antt =====
-- A request to delete does not reach a blob that is stored under a UUID: `handle_delete` of
-- da-node/src/node_api/server.rs binds the id as it was sent, a text, `handle_fetch` binds the UUID.
use da_concept.Base.{
  ℕ, ◌+◌, ◌≡◌, ◌≢◌, ◌∙◌, ap, String, Bool, true, false, none, some, [], if◌then◌else◌, arith,
}
use Prim.Native.String.{◌++◌ as ◌<>◌}
use da_concept.Base.Outcome.{ok}
use da_concept.Node.Proto.{success, not_found, delete_resp, fetch_resp}
use da_concept.Node.Database.Row.{Key, text, key_eq, key_eq_iff, BlobRow}
use da_concept.Node.Database.Blobs.{exists_live, select_live}
use da_concept.Node.Manager.{P2pConfig}
use da_concept.Node.World.{Env, World}
use da_concept.Node.Types.{Blob, decode}
use da_concept.Node.Server.{response, proto_metadata, handle_fetch, handle_delete}
use da_concept.Node.Server.Answers.{handle_delete_lem, handle_fetch_found}

apart : (a b : Key) → a ≢ b → key_eq a b ≡ false
apart a b differ = ground (arith, key_eq_iff a b, differ)

module _ (env : Env) (config : P2pConfig) (w : World) where
  -- A request to delete misses a blob that is live under its UUID. While the database answers, where
  -- the requested id parses to a UUID that is not bound as that text: the request is answered by
  -- whether a live row has the text as its id, nothing is selected under that text afterwards and
  -- every other key selects what it did, and if the row under the UUID decodes, a request to fetch
  -- the same id still gets the blob, with its content on request.
  pub handle_fetch-handle_delete :
      (requested peer_id : String) (include_content : Bool) (id : ℕ) (row : BlobRow) (blob : Blob)
      → ((n : ℕ) → env.db_fault n ≡ false)
      → env.parse_uuid requested ≡ some id
      → text requested ≢ env.bind_uuid id
      → select_live (env.bind_uuid id) w.db.blobs ≡ some row
      → decode env row ≡ some blob
      → let deleted = (handle_delete env config requested w).1 in
        ((handle_delete env config requested w).0
          ≡ ok (
              if exists_live (text requested) w.db.blobs
              then response success "Blob deleted successfully" (some (delete_resp true))
              else response not_found ("Blob not found: " <> requested) (some (delete_resp false))))
        × ((j : Key)
            → select_live j deleted.db.blobs
              ≡ (if key_eq (text requested) j then none else select_live j w.db.blobs))
        × ((handle_fetch env config requested peer_id include_content deleted).0
            ≡ ok (
                response success "Blob fetched successfully" (
                  some (
                    fetch_resp (
                      some (record {
                        metadata = some (proto_metadata env config blob);
                        content = if include_content then row.content else [];
                      }))))))
  handle_fetch-handle_delete requested peer_id include_content id row blob up parses differ live
        decodes =
      let (answer, table) =
        handle_delete_lem env config w requested (up w.ticks) (up (w.ticks + 1 + 1)) in
      let v : World = (handle_delete env config requested w).1 in
      let still : select_live (env.bind_uuid id) v.db.blobs ≡ some row =
        table (env.bind_uuid id)
        ∙ ap (λ b. if b then none else select_live (env.bind_uuid id) w.db.blobs)
            (apart (text requested) (env.bind_uuid id) differ)
        ∙ live in
      (
        answer,
        table,
        (handle_fetch_found env config v requested peer_id include_content id (up v.ticks) parses
            row blob (up (v.ticks + 1 + 1)) still decodes).0,
      )
