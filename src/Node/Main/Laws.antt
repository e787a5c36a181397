-- ===== src/Node/Main/Laws.antt =====
-- How `main` of da-node/src/main.rs ends.
use da_concept.Base.{
  ◌≡◌, refl, String, Bool, true, false, ◌&&◌, Option, none, some, List, [], ◌∷◌, ◌⊎◌, inl, inr,
  if◌then◌else◌, Bool-cases, Option-cases,
}
use da_concept.Base.Outcome.{Outcome, ok, err, panic}
use da_concept.Node.Configuration.{DatabaseSettings, ServerSettings, connection_string}
use da_concept.Node.Manager.{P2pConfig, PeerClient, insert_peer}
use da_concept.Node.Proto.{
  HandshakeStatus, ResponseData, announce_resp, fetch_resp, delete_resp, status_resp,
  node_info_resp, handshake_resp,
}
use da_concept.Node.World.{
  Env, World, DaNodeError, io, invalid_response, pure, throw, map_err, ◌>>=◌,
}
use da_concept.Node.World.Quiet.{Quiet, Quiet-pure, Quiet-throw, Quiet-bind}
use da_concept.Node.World.Succeeds.{
  Succeeds, Succeeds-pure, Succeeds-modify, Succeeds-joined, Succeeds-attempt, Succeeds-bind,
}
use da_concept.Node.Sync.Quiet.{Quiet-sync}
use da_concept.Node.Client
use da_concept.Node.Sync.{greet_peers, new}
use da_concept.Node.Startup.Host.{Host, expect, get_connection_pool}
use da_concept.Node.Startup.Application
use da_concept.Node.Startup.Application.{Application}
use da_concept.Node.Startup.P2p
use da_concept.Node.Startup.P2p.{P2p}
use da_concept.Node.Main.{
  MainError, failed_to_read_configuration, from, Report, Task, application_task, p2p_task,
  sync_manager_task, select, start, main,
}

-- The result without the line that is logged.
abbrev pub exit : Outcome MainError Report → Outcome MainError (Unit {0})
exit (ok report) = ok tt
exit (err e) = err e
exit panic = panic

-- Whether the sockets of the API are to be had.
unfoldable pub listens : Host → String → Bool
listens host endpoint = elim (host.bind endpoint) [
  | none ↦ false
  | some l ↦ elim (host.port l) [ none ↦ false | some p ↦ true ]
]

module _ (env : Env) where
  Quiet-send_handshake :
      (self : PeerClient) (node_id node_url : String)
      → Quiet (Client.send_handshake env self node_id node_url)
  unfolding Client.send_handshake
  Quiet-send_handshake self node_id node_url = Quiet-bind _ _ (Quiet-sync env self _) answered
    where
      answered :
          (data_of : Option ResponseData)
          → Quiet {A = HandshakeStatus × Option String} (elim data_of [
            | some (handshake_resp st peer_id) ↦ pure (st, peer_id)
            | _ ↦ throw (invalid_response "Invalid response from handshake")
          ])
      answered none = Quiet-throw _
      answered (some (handshake_resp st peer_id)) = Quiet-pure _
      answered (some (announce_resp a)) = Quiet-throw _
      answered (some (fetch_resp a)) = Quiet-throw _
      answered (some (delete_resp a)) = Quiet-throw _
      answered (some (status_resp a)) = Quiet-throw _
      answered (some (node_info_resp a b c d)) = Quiet-throw _

  Succeeds-new_client : (url : String) → Succeeds (Client.new url)
  unfolding Client.new
  Succeeds-new_client url = record { returns = λ w. (_, refl) }

  -- The configured peers are greeted whatever they answer.
  Succeeds-greet_peers :
      (config : P2pConfig) (urls : List String) (peers : List (String × PeerClient))
      → Succeeds (greet_peers env config urls peers)
  unfolding greet_peers
  Succeeds-greet_peers config [] peers = Succeeds-pure peers
  Succeeds-greet_peers config (url ∷ urls) peers =
      let rest = Succeeds-greet_peers config urls in
      Succeeds-bind _ _ (Succeeds-new_client url) λ client.
        Succeeds-bind _ _
          (Succeeds-attempt _ (Quiet-send_handshake client config.node_id config.listen_addr))
          λ answer. greeted client rest answer
    where
      greeted :
          (client : PeerClient)
          → ((found : List (String × PeerClient)) → Succeeds (greet_peers env config urls found))
          → (answer : (HandshakeStatus × Option String) ⊎ DaNodeError)
          → Succeeds (elim answer [
            | inl (status, some node_id) ↦
                greet_peers env config urls (insert_peer node_id client peers)
            | inl (status, none) ↦ greet_peers env config urls peers
            | inr e ↦ greet_peers env config urls peers
          ])
      greeted client rest (inl (status, none)) = rest peers
      greeted client rest (inl (status, some node_id)) = rest (insert_peer node_id client peers)
      greeted client rest (inr e) = rest peers

  Succeeds-try_from : (config : P2pConfig) → Succeeds (P2p.try_from env config)
  unfolding P2p.try_from P2p.create_grpc_server new
  Succeeds-try_from config =
      Succeeds-bind _ _
        (Succeeds-bind _ _ (Succeeds-greet_peers config config.peers []) λ peers. Succeeds-pure _)
        λ manager.
          Succeeds-bind _ _ (Succeeds-modify _)
            λ done. Succeeds-bind _ _ (Succeeds-pure _) λ server. Succeeds-pure _

  module _ (host : Host) where
    Succeeds-select :
        (first : Task) (application : Application) (p2p : P2p)
        → Succeeds (select env host first application p2p)
    unfolding select
    Succeeds-select application_task application p2p =
        Succeeds-bind _ _ (Succeeds-joined _) λ o. Succeeds-pure _
    Succeeds-select p2p_task application p2p =
        Succeeds-bind _ _ (Succeeds-joined _) λ o. Succeeds-pure _
    Succeeds-select (sync_manager_task rounds) application p2p =
        Succeeds-bind _ _ (Succeeds-joined _) λ o. Succeeds-pure _

    pool_lem :
        (database : DatabaseSettings) (w : World)
        → get_connection_pool host database w ≡ (
          (if host.connects (connection_string database) && host.migrates then ok tt else panic),
          w,
        )
    unfolding get_connection_pool pure ◌>>=◌
    pool_lem database w = go (host.connects (connection_string database)) host.migrates
      where
        go :
            (there migrated : Bool)
            → (expect there >>= λ done. expect migrated) w
              ≡ ((if there && migrated then ok tt else panic), w)
        go true true = refl
        go true false = refl
        go false migrated = refl

    -- The end of `main`, once there is a server for the peers.
    ends :
        (first : Task) (c : ServerSettings) (p2p : P2p) (w : World)
        → exit
            ((map_err from (Application.build host c) >>= λ application.
                select env host first application p2p)
              w).0
          ≡ (if listens host c.client_server_endpoint then ok tt else err (from io))
    unfolding listens Application.build Application.run map_err pure throw ◌>>=◌
    ends first c p2p w = elim (Option-cases (host.bind c.client_server_endpoint)) [
      | inl none_bound ↦ rw (listens, none_bound)
      | inr (l, bound) ↦ elim (Option-cases (host.port l)) [
        | inl no_port ↦ rw (listens, bound, no_port)
        | inr (port, e) ↦
            let application : Application = record {
              graphql_port = port;
              server = record { listener = l; jwt_secret = c.jwt_secret };
            } in
            let (report, done) = (Succeeds-select first application p2p).returns w in
            rw (listens, bound, e, done)
      ]
    ]

    -- How the process ends, in every environment and whichever task ends first, and however: with
    -- the error that says so if the configuration cannot be read, with a panic if reading it
    -- panics or the database is not reached or not migrated, with an I/O error if there is no
    -- socket for the API, and with success otherwise.
    pub main_lem :
        (first : Task) (configuration : Outcome DaNodeError ServerSettings) (w : World)
        → exit (main env host first configuration w).0 ≡ elim configuration [
          | panic ↦ panic
          | err e ↦ err failed_to_read_configuration
          | ok c ↦
              if host.connects (connection_string c.database) && host.migrates
              then if listens host c.client_server_endpoint then ok tt else err (from io)
              else panic
        ]
    unfolding main start map_err ◌>>=◌ throw
    main_lem first panic w = refl
    main_lem first (err e) w = refl
    main_lem first (ok c) w =
        let (p2p, made) = (Succeeds-try_from c.p2p_config).returns w in
        let end = ends first c p2p (P2p.try_from env c.p2p_config w).1 in
        let reached : Bool = host.connects (connection_string c.database) && host.migrates in
        elim (Bool-cases reached) [
          | inl there ↦ rw (pool_lem c.database w, there, made) end
          | inr absent ↦ rw (pool_lem c.database w, absent)
        ]
