-- ===== src/Core/Quic/Socket.antt =====
-- crates/litevpn-core/src/quic.rs: `create_udp_socket`, as the calls of the socket library that it makes.
-- What a call answers is an argument.
use rust_vpn.Prelude.{
  ℕ, ◌≡◌, refl, Bool, true, false, Result, ok, err, ◌>>=◌, List, [], ◌∷◌, ◌++◌, ltb, if◌then◌else◌,
}
use rust_vpn.Text.{Text, chars}

pub data SocketError : Type 0 where
  not_created recv_buffer_refused send_buffer_refused not_bound : SocketError

pub data SocketCall : Type 0 where
  new_socket set_dual_stack : SocketCall
  bind : Text → SocketCall
  set_recv_buffer_size set_send_buffer_size : ℕ → SocketCall

module _ (answers : SocketCall → Bool) where
  -- A call whose error is returned.
  call : SocketCall → SocketError → Result SocketError (List SocketCall)
  call c e = if answers c then ok (c ∷ []) else err e

  -- `if n > 0 { .. }`
  call_if : ℕ → (ℕ → SocketCall) → SocketError → Result SocketError (List SocketCall)
  unfolding call
  call_if n c e = if ltb 0 n then call (c n) e else ok []

  -- An IPv6 socket that cannot be made dual-stack is used as it is.
  unfoldable pub create_udp_socket : Bool → Text → ℕ → ℕ → Result SocketError (List SocketCall)
  unfolding call call_if
  create_udp_socket is_ipv6 addr recv_buffer_bytes send_buffer_bytes = do
    created ← call new_socket not_created
    let dual_stack = if is_ipv6 then set_dual_stack ∷ [] else []
    recv ← call_if recv_buffer_bytes set_recv_buffer_size recv_buffer_refused
    send ← call_if send_buffer_bytes set_send_buffer_size send_buffer_refused
    bound ← call (bind addr) not_bound
    ok (created ++ dual_stack ++ recv ++ send ++ bound)

create_udp_socket_tests :
    (create_udp_socket (λ c. true) true (chars "[::]:0") 0 65536
      ≡ ok (new_socket ∷ set_dual_stack ∷ set_send_buffer_size 65536 ∷ bind (chars "[::]:0") ∷ []))
    × (create_udp_socket (λ c. false) false (chars "0.0.0.0:0") 0 0 ≡ err not_created)
unfolding create_udp_socket
create_udp_socket_tests = (refl, refl)
