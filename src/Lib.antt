-- ===== src/Lib.antt =====
-- LiteVPN: a QUIC/TUN VPN with one server and one client (crates/litevpn-core, litevpn-server,
-- litevpn-client, litevpn-keygen), modelled with the properties that make its parts correct.
--
-- Parts, and where they are:
-- - Text/: the functions of Rust's standard library on text that the program calls. A `&str` is the
--   list of its characters; Text/Utf8 goes between characters and bytes, Text/Number has `u64` parsing
--   and printing, Text/Words `split_whitespace`, Text/Lines `lines`.
-- - Core/Config, Core/Config/Server, Core/Config/Client: the configurations and their validation
--   (crates/litevpn-core/src/config.rs). Core/Token: `load_token` of the same file. Keygen: the token
--   file and the calls of crates/litevpn-keygen/src/main.rs.
-- - Core/Tun: the device builder's calls in crates/litevpn-core/src/tun.rs.
-- - Core/Transport: the transport settings of crates/litevpn-core/src/crypto.rs; Core/Tls: the
--   configurations of both ends.
-- - Core/Auth: request, parser, client and server side of crates/litevpn-core/src/auth.rs;
--   Core/Auth/Mode and Core/Auth/Parse say which requests are accepted, and Core/Auth/Exchange has both
--   sides together.
-- - Core/Quic: crates/litevpn-core/src/quic.rs. Frame has packet frames on a reliable stream, Backlog
--   the datagram backlog, Pacer the egress pacer, Pump the four loops between the tunnel device and the
--   connection (Pump/Tunnel and Pump/Delivery: the two ends together), Finish the end of a stream with
--   its acknowledgement, Socket the calls of `create_udp_socket`.
-- - Server: the connections of crates/litevpn-server/src/main.rs. A task is a state machine on `Phase`,
--   `Step` is one atomic action of one task (a critical section of the lock, the `fetch_add`, a call on
--   a connection), and `Run k` holds the states behind `k` steps in any interleaving. Server/Ids,
--   Server/Fates and Server/Active have the invariants: for fewer steps than 64-bit numbers count.
--   Server/Trace holds the slot against what its users see of it. Server/Main is `main` up to its loop,
--   Server/Pumps the pumps that a task runs. Server/Schedule is the same server as a program, driven by
--   a schedule that says which task is polled next, and whether its call has returned: Steps takes its
--   turns for steps, Turns says what is left of a task, Trust follows a client from the server's files
--   to the slot, Served one with the token to its transport.
-- - Link: both ends of a tunnel in stream mode (`main` of crates/litevpn-client/src/main.rs and
--   `handle_connection` of crates/litevpn-server/src/main.rs), from their streams to their pumps.
-- - Client: the command line of crates/litevpn-client/src/main.rs, its checks and the mode that `main`
--   requests; Client/Connect has the retry loop, with the answers of `connect_once` as an argument,
--   Client/Connect/Once one attempt, and Client/Request holds the checks against those of the server.
-- - Server/Summary and Client/Summary: the line with the result of a bench run, as the server prints it
--   and as the client reads it.
-- - Client/Routes: the route guard of crates/litevpn-client/src/macos_routes.rs over a `route` program
--   that is an argument, with what it documents as the laws `RouteLaws` of Client/Routes/Guard.
--   Client/Routes/Lookup reads the output of `netstat` and of `route get`.
-- - Client/Session and Client/Main: `main` of crates/litevpn-client/src/main.rs on every path, from its
--   configuration to its exit. Client/Main/Keeps, Guarded and Clean follow the route table through it,
--   Steps, Script and Ordered its use of the connection and the device, and Admission holds it against
--   the server's side of the authentication.
-- - Bench: what the bench of both ends shares. Bench/Datagram and Bench/Stream have the loops, each
--   round being what its `select!` answers; Server/Bench and Client/Bench have `run_bench` of the two
--   ends from start to summary, Client/Bench/Iterations the runs of the client, Client/Bench/Aggregate
--   their totals, Client/Bench/Agree and Client/Bench/Download both ends together.
--
-- State and operations: a Rust struct is a record with the same fields, a method takes the record and
-- returns the new one, `Result` is `Result E A` with one constructor of E for each message. Machine
-- integers are natural numbers with the program's saturation (min with 2 ^ 64 - 1) and wrap-around (the
-- counters of the bench, % 2 ^ 64) written out. What comes from outside is an argument: what quinn's
-- streams answer, the clock and the connection's statistics (lists of observations), the tunnel device,
-- the file system, `route` and `netstat`. Floating point is the parameter `Float` of Core/Quic/Pacer
-- with the laws `FloatLaws` of Pacer/Rate and `AllowanceLaws` of Pacer/Idle.
--
-- Fuel: the read loop of a frame has one round more than the buffer has bytes, which is enough as each
-- read of a stream with data left makes progress; decimal printing has 40 digits, which a `u128` needs
-- at most. The waiting loops and the loops of the bench have no fuel: they end with the list of their
-- observations or rounds, one for each turn, and the theorems say which observation ends them. The loop
-- that reads packets off a stream has fuel, and its theorem says how much is enough. The schedules of
-- the server are lists too, one poll of a task after the other.
--
-- Not modelled: the TOML parser, TLS, certificates, command-line parsing, logging and the shell
-- scripts, which are calls of other packages or glue; the text of the lines that the client prints
-- about a bench; the overflow of the clock plus a duration of the bench. In the schedules of the server
-- the pumps of a task are one call, with the opening of their streams, which returns or not; what they
-- do are the modules below Core/Quic/Pump and Link.
mod Prelude
mod Tests
pub mod Text
pub mod Core
pub mod Keygen
pub mod Client
pub mod Server
pub mod Bench
pub mod Link
