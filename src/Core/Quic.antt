-- ===== src/Core/Quic.antt =====
-- crates/litevpn-core/src/quic.rs, a module for each part: packet frames on a stream, the datagram
-- backlog, the egress pacer, and the pumps between the tunnel device and the connection.
pub mod Frame
pub mod Backlog
pub mod Pacer
pub mod Pump
pub mod Finish
pub mod Socket
