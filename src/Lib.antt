-- ===== src/Lib.antt =====
-- anvil-ring: an authenticated outbound HTTP tunnel (cargo/src). A rented machine runs the tether
-- (tunnel.rs), which dials the hub (hub.rs), presents a credential and serves the requests that the
-- hub sends it as streams of frames (frames.rs); callers reach the hub through frontend.rs, and
-- chunked bodies of the engine are decoded by chunked.rs. admin.rs keeps the hub's registrations in a
-- database, which the hub reads again and again (main.rs), and proxy.rs is a proxy in front of an engine
-- without a hub.
--
-- The files:
--  - Base: Boolean tests, byte strings and lists over the native numbers, results, maps.
--  - Text: UTF-8, white space, numbers in decimal and hexadecimal, as the source takes them from the
--    standard library (str::from_utf8, trim, from_str_radix, to_string).
--  - Frames: cargo/src/frames.rs, all of it; a frame is decoded from a list of bytes. RoundTrip, Sound
--    and Prefix hold the proofs.
--  - Chunked: cargo/src/chunked.rs, `ChunkedDecoder::push` and `feed_eof`. A pass of the loop is
--    `round`, and the loop runs on fuel: every pass but the one that leaves an empty chunk takes a byte
--    at least, so twice the length of the buffer and two is enough, which Chunked.Loop proves. Split and
--    Body hold the proofs. Framing is `is_chunked`.
--  - Hub: cargo/src/hub.rs. State has the constants and records, Session the operations of
--    `LiveSession` and `StreamState`, Registry those of `Registry`, Route the choice of a session and
--    the start of a stream (`reserve_route`, `start_forward`, `forward`, `forward_any`, with Serving for
--    which sessions can take one), Loop the task
--    of a session (the loop of `handle_tether`, one step for each event) and `StreamGuard`, with Stream for
--    one stream as a machine of its own, Handshake
--    what `handle_tether` does before its loop. What the source shares by `Arc` is stored once: a
--    session stands under its generation, a stream state under its stream id in the session that made
--    it. Every operation of the registry that changes it holds the routing lock or the table's lock from
--    start to end, so it is one function from state to state; the start of a stream is one step too,
--    before or after a close of its session, which does not take the routing lock. Times are numbers of nanoseconds since
--    the epoch, passed in by the caller; SHA-256 (sha2), the head parser (httparse) and the builder of a
--    response (http) are parameters. An insertion sort stands for `sort_by`.
--  - Hub/Upload: the upload task that `forward` spawns. Hub/Registry/View and Refines: the view that the
--    registry implements.
--  - Socket: the messages of the WebSocket and the failures that both ends share.
--  - Tunnel: cargo/src/tunnel.rs. The file itself has the session (`run_session`, a turn for each event
--    of its `select!`, with the queues, the stream handles and the heartbeat, and what `serve_over` does
--    at its end), Config what comes before a session (`trim_cred`, `dial`, `run_client`, the wait for
--    WELCOME, the lease's timer), Pump the body and the response of `forward_engine`. Steps adds what runs
--    beside the loop: the pumps and the socket's writer, as steps in any order. Owned, Bounds, Inputs,
--    Order and Upload hold the proofs; Answer follows a response to the caller's reader. A queue is a list; a task that is aborted is a number in a list.
--    Times are milliseconds. The parsers of URLs and addresses are parameters.
--  - Admin: cargo/src/admin.rs. The file itself has the validation and the records of a snapshot, Store
--    the statements that SQLite is asked, an interface of operations with the laws of SQL, Issue the
--    operations of `Store` on a database and the files of the credentials, with the answers of the
--    operating system as a record. A transaction that is not committed leaves the database as it was.
--    Valid, Stored, Commands and Delivery hold the proofs, Authority follows a
--    credential to the hub, Files is the check of the files' metadata; their tests fill the interface with a table
--    of one row.
--  - Proxy: cargo/src/proxy.rs, the token check, the rule of the loopback upstream and the guards of
--    `handle`; Guards holds the proofs. Relay has the request that is forwarded. The parsers are parameters, and so is the address of localhost.
--  - Main: cargo/src/main.rs, the modes, the configuration that a mode starts with and a round of
--    `refresh_registrations`; Startup holds the proofs.
--  - Headers: cargo/src/headers.rs, `is_hop_by_hop` and `strip_hop_by_hop`. Fields is the interface of the
--    crate http's header map, with the laws that its documentation states, Assoc a list of fields that
--    meets it, Print the heads that the hub and the tether write, Wire the lines of such heads, and Strip
--    holds the proofs. The order in
--    which a map is iterated is left open.
--  - Frontend: cargo/src/frontend.rs, the body of a response (`TunnelBody`, one step for each poll) and
--    `handle`, with its checks, from what the forwarding comes to. Drain and Answers hold the proofs.
--    Response puts a stream of the hub and the reader of its body together, as moves in any order, and has
--    the proofs in Story, Steps and Genuine.
--
-- A stream id is a number below 2^16, a lease and a generation below 2^64; additions that wrap in the
-- source say so (`% 2 ^ w`). A `HashMap` is an association list with one entry for each key that is
-- inserted; no theorem depends on its order.
--
-- Not modelled: sockets, tasks and timers, the Display texts, the parsing of heads (httparse) and the
-- framing of bodies on a connection (hyper), the initialization of the administration's database and its output,
-- listening and signals.
pub mod Base
pub mod Text
pub mod Frames
pub mod Chunked
pub mod Socket
pub mod Hub
pub mod Tunnel
pub mod Admin
pub mod Proxy
pub mod Main
pub mod Headers
pub mod Frontend
