-- ===== src/Core/Config/Server.antt =====
-- crates/litevpn-core/src/config.rs: `ServerConfig`, its default and its validation.
use rust_vpn.Prelude.{
  ℕ, ◌≤◌, ◌≡◌, refl, ◌↔◌, Bool, true, false, Option, some, ok, ◌>>◌, bail_if, arith,
}
use rust_vpn.Core.{
  default_mtu, default_datagram_buffer_bytes, default_datagram_backlog_packets,
  default_udp_socket_buffer_bytes,
}
use rust_vpn.Core.Config.{
  CongestionController, cubic, VpnTransportMode, datagram, Ipv4Addr, Checked, empty_tun_name,
  empty_external_interface, validate_common, validate_udp_socket_buffers, validate_egress_target,
  validate_datagram_backlog, is_blank, CommonOk, SocketBufferOk, validate_common_iff,
  validate_udp_socket_buffers_iff, validate_egress_target_iff, validate_datagram_backlog_iff,
}
use rust_vpn.Text.{Text, chars, trim}

pub record ServerConfig : Type 0 where
  pub listen : Text
  pub tun_name : Text
  pub tun_ip : Ipv4Addr
  pub tun_prefix : ℕ
  pub client_ip : Ipv4Addr
  pub mtu : ℕ
  pub cert_path : Text
  pub key_path : Text
  pub auth_token_path : Text
  pub external_interface : Text
  pub datagram_buffer_bytes : ℕ
  pub enable_linux_offload : Bool
  pub tx_queue_len : Option ℕ
  pub congestion_controller : CongestionController
  pub udp_recv_buffer_bytes : ℕ
  pub udp_send_buffer_bytes : ℕ
  pub egress_target_mbps : ℕ
  pub datagram_backlog_packets : ℕ
  pub adaptive_egress : Bool
  pub vpn_transport : VpnTransportMode

-- `ServerConfig::default()`
abbrev pub default : ServerConfig
default = record {
  listen = chars "0.0.0.0:443";
  tun_name = chars "tun0";
  tun_ip = record { a = 10; b = 66; c = 0; d = 1 };
  tun_prefix = 24;
  client_ip = record { a = 10; b = 66; c = 0; d = 2 };
  mtu = default_mtu;
  cert_path = chars "/etc/litevpn/server.crt";
  key_path = chars "/etc/litevpn/server.key";
  auth_token_path = chars "/etc/litevpn/client.token";
  external_interface = chars "ens3";
  datagram_buffer_bytes = default_datagram_buffer_bytes;
  enable_linux_offload = false;
  tx_queue_len = some 10_000;
  congestion_controller = cubic;
  udp_recv_buffer_bytes = default_udp_socket_buffer_bytes;
  udp_send_buffer_bytes = default_udp_socket_buffer_bytes;
  egress_target_mbps = 36;
  datagram_backlog_packets = default_datagram_backlog_packets;
  adaptive_egress = true;
  vpn_transport = datagram;
}

unfoldable pub validate : ServerConfig → Checked
validate c = do
  validate_common c.mtu c.tun_prefix c.datagram_buffer_bytes
  validate_udp_socket_buffers c.udp_recv_buffer_bytes c.udp_send_buffer_bytes
  validate_egress_target c.egress_target_mbps
  validate_datagram_backlog c.datagram_backlog_packets
  bail_if (is_blank c.tun_name) empty_tun_name
  bail_if (is_blank c.external_interface) empty_external_interface
  ok tt

-- What a server configuration has to satisfy.
pub record IsValid (c : ServerConfig) : Type 0 where
  pub common : CommonOk c.mtu c.tun_prefix c.datagram_buffer_bytes
  pub recv_buffer : SocketBufferOk c.udp_recv_buffer_bytes
  pub send_buffer : SocketBufferOk c.udp_send_buffer_bytes
  pub egress : c.egress_target_mbps ≤ 10000
  pub backlog : c.datagram_backlog_packets ≤ 100000
  pub named : is_blank c.tun_name ≡ false
  pub attached : is_blank c.external_interface ≡ false

-- `validate` accepts exactly the configurations that satisfy every bound.
pub server_validate_iff : (c : ServerConfig) → (validate c ≡ ok tt) ↔ IsValid c
unfolding validate
server_validate_iff c = ground (
  arith,
  validate_common_iff c.mtu c.tun_prefix c.datagram_buffer_bytes,
  validate_udp_socket_buffers_iff c.udp_recv_buffer_bytes c.udp_send_buffer_bytes,
  validate_egress_target_iff c.egress_target_mbps,
  validate_datagram_backlog_iff c.datagram_backlog_packets,
)

-- The default configuration is valid.
server_default_valid : validate default ≡ ok tt
unfolding validate validate_common validate_udp_socket_buffers validate_egress_target
    validate_datagram_backlog is_blank trim
server_default_valid = refl
