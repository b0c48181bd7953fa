-- ===== src/Core/Config.antt =====
-- crates/litevpn-core/src/config.rs: the shared types and the validators; `Config/Server` and
-- `Config/Client` hold the two configurations. The parser of the `toml` crate is an argument.
pub mod Server
pub mod Client
use rust_vpn.Prelude.{
  ℕ, ◌*◌, ◌≤◌, ◌≡◌, refl, ◌↔◌, ◌⊎◌, Bool, ◌&&◌, not, Option, Result, ok, err, context, bail_if,
  ◌>>=◌, ◌>>◌, arith, ltb, ◌==◌,
}
use rust_vpn.Core.{max_mtu}
use rust_vpn.Text.{Text, trim, is_empty}

pub data CongestionController : Type 0 where
  cubic bbr : CongestionController

pub data VpnTransportMode : Type 0 where
  datagram stream : VpnTransportMode

pub record Ipv4Addr : Type 0 where
  pub a : ℕ
  pub b : ℕ
  pub c : ℕ
  pub d : ℕ

-- One constructor for each message of a `bail!`.
pub data ConfigError : Type 0 where
  mtu_too_small mtu_too_large prefix_too_large datagram_buffer_too_small : ConfigError
  recv_buffer_too_small send_buffer_too_small : ConfigError
  egress_target_too_large backlog_too_large : ConfigError
  empty_tun_name empty_external_interface empty_server empty_server_name : ConfigError
  read_failed parse_failed token_too_short : ConfigError

abbrev pub Checked : Type 0
Checked = Result ConfigError (Unit {0})

unfoldable pub validate_common : ℕ → ℕ → ℕ → Checked
validate_common mtu prefix datagram_buffer_bytes = do
  bail_if (ltb mtu 576) mtu_too_small
  bail_if (ltb max_mtu mtu) mtu_too_large
  bail_if (ltb 32 prefix) prefix_too_large
  bail_if (ltb datagram_buffer_bytes (64 * 1024)) datagram_buffer_too_small
  ok tt

unfoldable pub validate_udp_socket_buffers : ℕ → ℕ → Checked
validate_udp_socket_buffers recv_buffer_bytes send_buffer_bytes = do
  bail_if (not (recv_buffer_bytes == 0) && ltb recv_buffer_bytes (64 * 1024)) recv_buffer_too_small
  bail_if (not (send_buffer_bytes == 0) && ltb send_buffer_bytes (64 * 1024)) send_buffer_too_small
  ok tt

unfoldable pub validate_egress_target : ℕ → Checked
validate_egress_target egress_target_mbps = do
  bail_if (ltb 10_000 egress_target_mbps) egress_target_too_large
  ok tt

unfoldable pub validate_datagram_backlog : ℕ → Checked
validate_datagram_backlog datagram_backlog_packets = do
  bail_if (ltb 100_000 datagram_backlog_packets) backlog_too_large
  ok tt

-- `s.trim().is_empty()`
unfoldable pub is_blank : Text → Bool
is_blank s = is_empty (trim s)

-- `load_toml`: `from_str` is `toml::from_str`, and the file is what `read_to_string` answers.
unfoldable pub load_toml : {A : Type 0} → (Text → Option A) → Option Text → Result ConfigError A
load_toml from_str file = do raw ← context file read_failed; context (from_str raw) parse_failed

abbrev pub CommonOk : ℕ → ℕ → ℕ → Type 0
CommonOk mtu prefix buffer = (576 ≤ mtu) × (mtu ≤ 1400) × (prefix ≤ 32) × (65536 ≤ buffer)

abbrev pub SocketBufferOk : ℕ → Type 0
SocketBufferOk bytes = (bytes ≡ 0) ⊎ (65536 ≤ bytes)

pub validate_common_iff : (m p b : ℕ) → (validate_common m p b ≡ ok tt) ↔ CommonOk m p b
unfolding validate_common
validate_common_iff m p b = ground arith

pub validate_udp_socket_buffers_iff :
    (r s : ℕ) → (validate_udp_socket_buffers r s ≡ ok tt) ↔ (SocketBufferOk r × SocketBufferOk s)
unfolding validate_udp_socket_buffers
validate_udp_socket_buffers_iff r s = ground arith

pub validate_egress_target_iff : (m : ℕ) → (validate_egress_target m ≡ ok tt) ↔ (m ≤ 10000)
unfolding validate_egress_target
validate_egress_target_iff m = ground arith

pub validate_datagram_backlog_iff : (n : ℕ) → (validate_datagram_backlog n ≡ ok tt) ↔ (n ≤ 100000)
unfolding validate_datagram_backlog
validate_datagram_backlog_iff n = ground arith
