-- ===== src/Lib.antt =====
-- A data availability node: it keeps blobs of its users in SQLite, encrypted by their keys, and
-- synchronises them with its peers over gRPC. Two crates are modelled.
--
-- crypto: `encrypt` and `decrypt` of crypto/src/elgamal.rs are functions of those names in
-- Crypto/Elgamal on lists of bytes; their loops are `encrypt_chunks`, `store_all`, `read_all`,
-- `decrypt_chunks` and `trim`, by recursion on the list or on the count that was read.
-- crypto/src/keypair.rs is Crypto/PrivateKey and Crypto/PublicKey, and types.rs and errors.rs are
-- Crypto/Types. A panic is a value (Base/Outcome), so are errors. The crates num-bigint, base64 and
-- ring are the parameter `Crates` of Crypto/Crates: their documented behaviour is `IsLawful`,
-- and `IsAvailable` says that random bytes are drawn. Random requests are numbered. What the standard
-- library does is in Crypto/Std. Offsets are taken to fit 64 bits. Children of Crypto/Elgamal have
-- the proofs: Words (a chunk and its word), Format (what is stored is read), Padding (NUL bytes),
-- RoundTrip, Safety (any bytes), Panic. Crypto/UnitTests has the tests that stand in elgamal.rs and
-- keypair.rs, as functions of what the crates rand, fake and quickcheck make up; a failed assertion
-- is a panic.
--
-- da-node: Node/World has the state, which is the database, the sync manager and the connections,
-- and the parameter `Env`: failures and the clock of the database, the peers' answers, sqlx's
-- bindings and the ranges of its integers, hashing, UUIDs and times. An action takes the world to a result and a world. Node/Proto
-- has the messages of da-node/proto/sync.proto. Node/Database has the tables of da-node/migrations
-- and one function for each SQL statement. Node/Manager has node_api/config.rs and the state of
-- `SyncManager`; Node/Sync has its methods (node_api/sync.rs) and Node/Sync/Statements those that
-- run one statement. Node/Client is node_api/client.rs and Node/Server is node_api/server.rs, both
-- of da-node/src, a function for each method under its name. A client's connection is a shared cell,
-- modelled by its address. The sync loop is endless: `start_sync_loop` takes the number of its rounds.
-- It runs the tasks of a batch one after the other; their
-- interleavings at the manager's lock are the step relation of Node/Sync/Schedule.
-- Node/World/Ensures has the rules by which a relation between worlds is shown of an action;
-- Node/Invariant uses them for the invariant of a node.
--
-- Node/UserApi has da-node/src/user_api: its Types, the mutations of mod.rs in Mutation, the queries
-- and resolvers in Query and Opening, and the batches of data_loader.rs in Loader, each under its
-- name. The user of context.rs is an argument of the resolvers, and what a cached loader returns is
-- a function that is passed in; the context itself is Node/UserApi/Context. The crates argon2, chrono,
-- uuid and jsonwebtoken are the parameter `Web` of Node/UserApi/Web, their documented behaviour is
-- `IsSound` there. A text whose bytes the crate crypto reads or makes is the list of its bytes.
--
-- Node/Startup has the handler of startup.rs, with the context that it makes for a request, and its
-- children Host, Application and P2p have the types of those names there: `Host` is what tokio, sqlx,
-- axum and tonic returned. Node/Configuration has configuration.rs, and Node/Main has main.rs: of the
-- three tasks of `main` the one that ends first is run, and which one that is, is given, for the
-- endless loop with the number of its rounds.
--
-- Of the other children of Node/UserApi, Accounts, Access and Guards are about registrations,
-- logins and tokens, Content and Refusals are about blobs that are added, Deletion about
-- `delete_blob`, and Loader/Answers and Loader/Users about the loaders. Node/Permits lists what
-- an action writes in a way that a relation between worlds can permit, and Node/Sync/Ensures,
-- Node/Server/Ensures and Node/UserApi/Ensures read the loop, the server and the mutations in
-- these terms. Of the other children of Node/Server, Answers has what requests do, Announced is about
-- announcements that follow each other, Misses about the two ways in which an id is bound, and Peers
-- about handshakes. Node/System runs these three in any order, Node/Replication joins the client of
-- one node to the server of another (Added up to the announcement of a blob, Announced from
-- there on, EndToEnd both, Hidden about how the blob is then stored, Revived about a blob that is
-- deleted and fetched again), and Node/Sync/Loop compares the loop with the schedule. The world records the requests that were sent, which
-- Node/Sync/Announcements is about. Node/Sync/Started and Node/Sync/Single have the task for a
-- blob that is there, and the round over a queue with one blob. Node/World/Quiet and
-- Node/World/Succeeds have the rules for actions that never panic and for actions that always
-- return.
--
-- Not modelled: the routes of the web server, logger.rs and build.rs, which only call other
-- crates; juniper, which reads a query and calls the resolvers; the cache of the crate
-- dataloader; tracing; the encoding of messages; the scheduling of tasks between statements; the
-- limits that SQLite and 32-bit sizes put on a blob, and those that tonic puts on a message (4 MiB
-- by default, which is less than some blobs that the results below admit: a peer's answer above it
-- is an error, which `Env` may return).
pub mod Base
pub mod Crypto
pub mod Node
