-- ===== src/Lib.antt =====
-- ckb-discovery: a probe of the CKB peer-to-peer network. Dialers (src/) connect to peers, learn their
-- version and their neighbours, and publish what they learn over MQTT. Marci (marci/) takes these
-- messages and keeps in Redis which peers are reachable, online or unknown, and publishes the
-- reachable ones for the dialers to dial. The query service (exposed/) reads the same database.
--
-- Types: types/src/lib.rs, the records that the programs exchange and the names of the networks.
-- Compress: src/compress.rs, the frame around a message of the Sync protocol.
-- Multiaddr: the `p2p` crate's addresses, a parameter. Network: src/network.rs, addresses to records and
--   back, and the bootstrap nodes.
-- Protocols: src/support_protocols.rs. Message: src/message.rs.
-- Handler: src/handler.rs, the callbacks of the `p2p` service. A callback is a run that emits actions
--   (publish, disconnect, dial, ...) and may panic; what the code does with an action's outcome is to log
--   it, except where it is unwrapped, and then the outcome is an argument.
-- Broker: the MQTT client, a parameter, and how a program starts: with `?` and `expect` on what its
--   libraries answer.
-- Dialer: src/main.rs, the reaction to a message of the MQTT stream and the task that reads the stream.
--   Dialer/Start is `main` around it.
-- Keys: the `format!` macros of marci/src/main.rs for the keys of the database, and the functions of
--   exposed/src/main.rs that read a peer id out of a key.
-- Redis: the server, a parameter; Redis/Reference is a map from keys to entries that states what the
--   documentation says of each command, and `IsServer` that a server which answers does so. Redis/Glob are
--   the patterns of KEYS, Redis/Scan the commands that list keys and members.
-- Marci: marci/src/main.rs, the arms of the main loop for the three channels as actions on the database,
--   the cache of `lookup_ipinfo` and the remote service. A `?` that fails ends the action with its
--   error. `select!` picks any ready channel, so the loop is run on any sequence of messages, with
--   pauses in which keys expire. Marci/Broadcast is the arm of the timer and the loop over all arms,
--   Marci/Ingest the task that reads the MQTT stream into the channels, Marci/Process the two tasks with
--   the channels between them as a step relation, Marci/Settings what `main` reads from
--   the environment, Marci/Start `main` up to its loop, Marci/Published what the MQTT client has published.
--   Marci/Status is an abstract specification of the database: one peer's status as a machine of its
--   own that only the messages about that peer and the passing time move. Marci/Entries reads a status
--   out of the keys.
-- Exposed: exposed/src/main.rs. The service only reads; other programs may write between two commands,
--   so the database is passed from each command to the next. Exposed/Info is what is read about a peer,
--   Exposed/Peers `get_peers` and `peer_in_map`, Exposed/Cache the cache of `peer_handler`,
--   Exposed/Service the queries with their defaults and the routes.
-- Pipeline: the programs together, as one reads what another stores or publishes.
-- Prelude: tests, lists over the native numbers, results, bit masks, runs, texts. Tests: stand-ins
--   for the libraries and the theorems at concrete inputs.
--
-- No function takes fuel: every loop of the code that is modelled goes through a list.
--
-- Times to live are `u64` in the code: EXPIRE takes an `i64`, to which the code converts with `unwrap`
-- (`to_i64`), and the server takes what is not 0 and whose milliseconds are a signed 64-bit number
-- (`is_time`). At 0, SETEX fails and EXPIRE deletes the key.
--
-- Numbers are natural numbers: ports, flags and times are only compared, masked and stored. An IP address
-- is its number. JSON, molecule, base58, snappy, multiaddress, MQTT, channel and Redis functions are
-- parameters. Peer ids and keys are texts by their characters, `to_lowercase` is that of ASCII.
--
-- The state of the query service is that of one worker: `main` makes the cache inside the closure that it
-- hands to `HttpServer::new`.
--
-- Not modelled: log lines, the start of the `p2p` services and of the HTTP server with its headers, and the
-- reconnection of the stream, which are calls of libraries only.
pub mod Prelude
pub mod Types
pub mod Compress
pub mod Multiaddr
pub mod Network
pub mod Protocols
pub mod Message
pub mod Handler
pub mod Broker
pub mod Dialer
pub mod Keys
pub mod Redis
pub mod Marci
pub mod Exposed
pub mod Pipeline
mod Tests
