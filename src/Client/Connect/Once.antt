-- ===== src/Client/Connect/Once.antt =====
-- crates/litevpn-client/src/main.rs: `connect_once`. What quinn answers is an argument.
use rust_vpn.Prelude.{
  ℕ, Bool, true, false, not, Option, Result, ok, err, ◌>>=◌, ◌>>◌, bail_if, context,
}
use rust_vpn.Core.Quic.Socket.{SocketError, SocketCall, create_udp_socket}
use rust_vpn.Text.{Text, chars}

pub data OnceError : Type 0 where
  socket_failed : SocketError → OnceError
  no_runtime no_endpoint not_started timed_out handshake_failed : OnceError

-- What the handshake comes to within the time: nothing, its error, or the connection.
pub data Handshake (C : Type 0) : Type 0 where
  too_late failed : Handshake C
  established : C → Handshake C

pub record Answers (E C : Type 0) : Type 0 where
  pub socket : SocketCall → Bool
  pub runtime : Bool
  pub endpoint : Option E
  -- `endpoint.connect(..)`
  pub starts : Bool
  pub handshake : Handshake C

-- The address that the socket is bound to.
unfoldable pub bind_addr : Bool → Text
bind_addr true = chars "0.0.0.0:0"
bind_addr false = chars "[::]:0"

finish : {C : Type 0} → Handshake C → Result OnceError C
finish too_late = err timed_out
finish failed = err handshake_failed
finish (established c) = ok c

abbrev with_socket : {A : Type 0} → Result SocketError A → Result OnceError A
with_socket (ok a) = ok a
with_socket (err e) = err (socket_failed e)

unfoldable pub connect_once : {E C : Type 0} → Answers E C → Bool → ℕ → ℕ → Result OnceError (E × C)
unfolding finish bind_addr
connect_once a is_ipv4 udp_recv_buffer_bytes udp_send_buffer_bytes = do
  socket ← with_socket (
      create_udp_socket a.socket (not is_ipv4) (bind_addr is_ipv4) udp_recv_buffer_bytes
        udp_send_buffer_bytes)
  bail_if (not a.runtime) no_runtime
  endpoint ← context a.endpoint no_endpoint
  bail_if (not a.starts) not_started
  connection ← finish a.handshake
  ok (endpoint, connection)
