-- ===== src/Core/Config/Client.antt =====
-- crates/litevpn-core/src/config.rs: `ClientConfig`, its default and its validation.
use rust_vpn.Prelude.{
  ℕ, ◌≤◌, ◌≡◌, refl, ◌↔◌, Bool, true, false, List, [], ◌∷◌, ok, ◌>>◌, bail_if, arith,
}
use rust_vpn.Core.{
  default_mtu, default_datagram_buffer_bytes, default_datagram_backlog_packets,
  default_udp_socket_buffer_bytes,
}
use rust_vpn.Core.Config.{
  CongestionController, bbr, VpnTransportMode, datagram, Ipv4Addr, Checked, empty_server,
  empty_server_name, validate_common, validate_udp_socket_buffers, validate_egress_target,
  validate_datagram_backlog, is_blank, CommonOk, SocketBufferOk, validate_common_iff,
  validate_udp_socket_buffers_iff, validate_egress_target_iff, validate_datagram_backlog_iff,
}
use rust_vpn.Text.{Text, chars, trim}

pub record ClientConfig : Type 0 where
  pub server : Text
  pub server_name : Text
  pub tun_name : Text
  pub client_ip : Ipv4Addr
  pub server_tun_ip : Ipv4Addr
  pub tun_prefix : ℕ
  pub mtu : ℕ
  pub ca_cert_path : Text
  pub auth_token_path : Text
  pub route_all : Bool
  pub dns : List Text
  pub datagram_buffer_bytes : ℕ
  pub congestion_controller : CongestionController
  pub udp_recv_buffer_bytes : ℕ
  pub udp_send_buffer_bytes : ℕ
  pub egress_target_mbps : ℕ
  pub datagram_backlog_packets : ℕ
  pub adaptive_egress : Bool
  pub vpn_transport : VpnTransportMode

-- `ClientConfig::default()`
abbrev pub default : ClientConfig
default = record {
  server = chars "127.0.0.1:443";
  server_name = chars "litevpn.local";
  tun_name = [];
  client_ip = record { a = 10; b = 66; c = 0; d = 2 };
  server_tun_ip = record { a = 10; b = 66; c = 0; d = 1 };
  tun_prefix = 24;
  mtu = default_mtu;
  ca_cert_path = chars "./config/server.crt";
  auth_token_path = chars "./config/client.token";
  route_all = true;
  dns = chars "1.1.1.1" ∷ chars "8.8.8.8" ∷ [];
  datagram_buffer_bytes = default_datagram_buffer_bytes;
  congestion_controller = bbr;
  udp_recv_buffer_bytes = default_udp_socket_buffer_bytes;
  udp_send_buffer_bytes = default_udp_socket_buffer_bytes;
  egress_target_mbps = 13;
  datagram_backlog_packets = default_datagram_backlog_packets;
  adaptive_egress = false;
  vpn_transport = datagram;
}

unfoldable pub validate : ClientConfig → Checked
validate c = do
  validate_common c.mtu c.tun_prefix c.datagram_buffer_bytes
  validate_udp_socket_buffers c.udp_recv_buffer_bytes c.udp_send_buffer_bytes
  validate_egress_target c.egress_target_mbps
  validate_datagram_backlog c.datagram_backlog_packets
  bail_if (is_blank c.server) empty_server
  bail_if (is_blank c.server_name) empty_server_name
  ok tt

-- What a client configuration has to satisfy; the tunnel's name may be empty.
pub record IsValid (c : ClientConfig) : Type 0 where
  pub common : CommonOk c.mtu c.tun_prefix c.datagram_buffer_bytes
  pub recv_buffer : SocketBufferOk c.udp_recv_buffer_bytes
  pub send_buffer : SocketBufferOk c.udp_send_buffer_bytes
  pub egress : c.egress_target_mbps ≤ 10000
  pub backlog : c.datagram_backlog_packets ≤ 100000
  pub addressed : is_blank c.server ≡ false
  pub named : is_blank c.server_name ≡ false

-- `validate` accepts exactly the configurations that satisfy every bound.
pub client_validate_iff : (c : ClientConfig) → (validate c ≡ ok tt) ↔ IsValid c
unfolding validate
client_validate_iff c = ground (
  arith,
  validate_common_iff c.mtu c.tun_prefix c.datagram_buffer_bytes,
  validate_udp_socket_buffers_iff c.udp_recv_buffer_bytes c.udp_send_buffer_bytes,
  validate_egress_target_iff c.egress_target_mbps,
  validate_datagram_backlog_iff c.datagram_backlog_packets,
)

-- The default configuration is valid.
client_default_valid : validate default ≡ ok tt
unfolding validate validate_common validate_udp_socket_buffers validate_egress_target
    validate_datagram_backlog is_blank trim
client_default_valid = refl
