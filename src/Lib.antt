-- ===== src/Lib.antt =====
-- The credential rate limiter, authentication and accounts, the friend network, the Yggdrasil
-- handshake, the file guards and the in-memory rendezvous of the Loontail network service, as
-- definitions that run, with the theorems that make them correct.
--
-- The program. `crates/server` is one HTTP process. Every request first passes its layers: `ip.rs`
-- attributes it to an address, and `ratelimit.rs` limits the credential endpoints by that address.
-- `crates/network` holds the handlers behind them: friends share the presence of each other, a
-- host opens a world, others ask to join it or are invited into it, an approval issues a join
-- ticket and a relay session, and `relay.rs` lets the holder of the ticket open the tunnel and
-- counts the player. The handlers keep their state in a database and push events through a
-- signaling hub (`crates/core/src/realtime.rs`). `crates/core` keeps the accounts, the sessions
-- and the token pairs behind them, which `crates/admin` changes and `crates/yggdrasil` serves to
-- the game; `crates/bundles` unpacks the archives of a build, and `crates/yggdrasil-protocol`
-- checks UUIDs and textures.
--
-- The files.
--
--   Prelude, Prelude/Tests, Lists, Map, Int, Text: Boolean tests on native numbers, list functions and
--     association lists with their laws.
--   Server/Ip: crates/server/src/ip.rs. The text parser of addresses is a parameter.
--   Server/RateLimit: crates/server/src/ratelimit.rs, with Middleware for `RateLimiter` and
--     `rate_limit_middleware`; Window, Validity, Refinement, Capacity, Keys and Unresolved prove.
--   Network/Store: the rows of the tables (migrations) and the types of crates/core/src/models.rs and
--     realtime.rs. Network/Effect: how a handler runs, and `AppError` of crates/core/src/error.rs.
--   Network/Query: crates/network/src/queries.rs and the queries that join.rs and presence.rs share.
--   Network/Ticket, Network/Join: crates/network/src/join.rs.
--   Network/Invites: crates/network/src/invites.rs; Writes says what each handler writes, Lifecycle,
--     with Following and Quiet, Accept and Create prove.
--   Network/Friends: crates/network/src/friends.rs; Writes says what each call writes, Soundness and
--     Befriending prove.
--   Network/Presence: crates/network/src/presence.rs, with the presence statement of users.rs; Shown and
--     Owned prove.
--   Network/Worlds: crates/network/src/worlds.rs; Effects and Writes say what each call writes,
--     Validity, Settled and Housed prove.
--   Network/Cleanup: crates/network/src/cleanup.rs; Draining proves.
--   Network/Relay: crates/network/src/relay.rs; Tickets and Slots prove.
--   Core/Account: the rows and parameters of authentication. Core/Tokens:
--     crates/core/src/auth/yggdrasil.rs, with the proofs in Capacity and Rotation. Core/Sessions:
--     crates/core/src/auth/mod.rs, with Ending. Core/Headers: the same file and csrf.rs. Core/Guard: the
--     extractors, and crates/core/src/request_log.rs; Soundness proves. Core/Identity:
--     crates/core/src/identity.rs, with registration, administration and the link of
--     crates/network/src/users.rs in Registry; Table, Invariant, Kept and Reconciled prove.
--   Admin/Users: crates/admin/src/users.rs and auth.rs; Counting and LastAdmin prove.
--   Bundles/Like: `escape_like_pattern` of crates/core/src/models.rs; Prefix proves. Bundles/Manifest:
--     crates/bundles/src/manifest.rs; Grouping proves. Bundles/Store: the rows, the disk and the effect
--     of the registry of builds. Bundles/Repo: crates/bundles/src/repo.rs, with Scan and Move; Index, Once,
--     Scan/Named, Distinct, Chunks and Replacing, and Move/Shift, Children, Legal and Relocation prove.
--     Bundles/Admin: crates/bundles/src/admin.rs, with Moving and Uploads; Moving/Relocates and Tidy, with
--     Rows, Batches, Handlers, Calls and Rescan, prove.
--   Bundles/Paths, Bundles/Archive: crates/bundles/src/storage.rs and archive.rs; Contained and Guards
--     prove.
--   Yggdrasil/Uuid: crates/yggdrasil-protocol/src/uuid.rs; Pieces, Groups and RoundTrip prove.
--   Yggdrasil/Png: crates/yggdrasil-protocol/src/png.rs; Bytes and Header prove.
--   Yggdrasil/Handshake: crates/yggdrasil/src/lib.rs and error.rs; Vouching proves.
--   Yggdrasil/JoinSessions: crates/yggdrasil/src/join_sessions.rs; SingleUse proves.
--   Realtime/Hub, Realtime/Rendezvous: the two hubs of crates/core/src/realtime.rs; Delivery and
--     Pairing prove.
--
-- How state is modelled. The database is a record of tables, newest row first, with a supply of
-- fresh ids; a UUID and a time are numbers. A handler is a function from the state to an outcome,
-- which carries the state that was written also when it fails; what stands in a transaction is
-- rolled back by a failure. A handler reads the clock, the configuration and its random token from
-- a record `Env`. An event that is pushed is added to a list. Every loop is structural recursion
-- on a list, but for two on fuel: the chunked deletion of cleanup.rs, for which one chunk more
-- than the aged rows fill is enough, and the chunks of a scan, which get a step for each entry.
-- Counts are natural numbers: the source bounds the hits of a bucket by `max_attempts`, the table
-- by its cap and the players of a world by `max_players`, and writes its subtractions as checked
-- or saturating, which the definitions spell out; the counts of a manifest, which nothing bounds,
-- wrap around as in a release build.
--
-- What is not modelled. Failures of the database itself, serialisation, routing, sockets and
-- metrics; the handlers run one at a time, except where a statement is a definition of its own.
-- The catalog, the textures, and the rest of the bundles, of the administration and of the
-- Yggdrasil server are not modelled. The disk of the builds is an interface: a directory is read
-- as a tree whose entries are in the order of their names and whose files have their digests, and
-- creation and update times of builds are not kept. A text that is trimmed loses the ASCII part of
-- white space. An account that is deleted takes its rows of the network with it; the deletion is
-- modelled on the accounts, sessions and tokens only. Of the bootstrap of an agent the two
-- statements are modelled, each on the state it writes. Headers are bytes, which `to_str` reads,
-- in the attribution of addresses, and texts that have been read elsewhere. SHA-256 and random
-- texts are parameters of authentication; a theorem that needs two digests to differ says so.
pub mod Admin
pub mod Bundles
pub mod Core
pub mod Network
pub mod Prelude
pub mod Realtime
pub mod Server
pub mod Yggdrasil
