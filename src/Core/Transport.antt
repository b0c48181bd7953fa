-- ===== src/Core/Transport.antt =====
-- crates/litevpn-core/src/crypto.rs: the transport settings of both ends.
use rust_vpn.Prelude.{ℕ, ◌+◌, ◌*◌, ◌≤◌, ◌≡◌, Bool, true, false, Option, some, arith, min}
use rust_vpn.Core.Config.{CongestionController, cubic, bbr, CommonOk}

-- The settings of quinn's `TransportConfig` that the code writes; times are in milliseconds.
pub record TransportConfig : Type 0 where
  pub max_concurrent_bidi_streams : ℕ
  pub max_concurrent_uni_streams : ℕ
  pub keep_alive_interval : Option ℕ
  pub max_idle_timeout : Option ℕ
  pub initial_mtu : ℕ
  pub receive_window : ℕ
  pub stream_receive_window : ℕ
  pub send_window : ℕ
  pub enable_segmentation_offload : Bool
  pub send_fairness : Bool
  pub congestion_controller_factory : CongestionController
  pub datagram_receive_buffer_size : Option ℕ
  pub datagram_send_buffer_size : ℕ

abbrev pub max_u16 : ℕ
max_u16 = 65535

-- `u16::saturating_add`
saturating_add_u16 : ℕ → ℕ → ℕ
saturating_add_u16 a b = min (a + b) max_u16

unfoldable pub tune_transport : TransportConfig → ℕ → CongestionController → TransportConfig
unfolding saturating_add_u16
tune_transport transport tun_mtu congestion_controller = record transport {
  max_concurrent_bidi_streams = 4;
  max_concurrent_uni_streams = 4;
  keep_alive_interval = some 5000;
  max_idle_timeout = some 30000;
  initial_mtu = min (saturating_add_u16 tun_mtu 160) 1452;
  receive_window = 8 * 1024 * 1024;
  stream_receive_window = 2 * 1024 * 1024;
  send_window = 8 * 1024 * 1024;
  enable_segmentation_offload = true;
  send_fairness = false;
  congestion_controller_factory = elim congestion_controller [
    | cubic ↦ transport.congestion_controller_factory
    | bbr ↦ bbr
  ];
}

-- The first argument is `TransportConfig::default()`.
unfoldable pub transport_config : TransportConfig → ℕ → ℕ → CongestionController → TransportConfig
unfolding tune_transport
transport_config initial datagram_buffer_bytes tun_mtu congestion_controller =
    let transport = tune_transport initial tun_mtu congestion_controller in
    record transport {
      datagram_receive_buffer_size = some datagram_buffer_bytes;
      datagram_send_buffer_size = datagram_buffer_bytes;
    }

-- For a tunnel MTU that the configuration allows, the first QUIC packets are larger than a full
-- tunnel packet by 52 bytes or more and at most 1452 bytes long, and both datagram buffers have the
-- configured size.
pub transport_config_bounds :
    (initial : TransportConfig) (buffer mtu prefix : ℕ) (controller : CongestionController)
    → CommonOk mtu prefix buffer
    → let t = transport_config initial buffer mtu controller in
      (mtu + 52 ≤ t.initial_mtu)
      × (t.initial_mtu ≤ 1452)
      × (t.datagram_send_buffer_size ≡ buffer)
      × (t.datagram_receive_buffer_size ≡ some buffer)
unfolding transport_config
transport_config_bounds initial buffer mtu prefix controller h = ground arith
