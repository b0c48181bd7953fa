-- ===== src/Server/Pumps.antt =====
-- crates/litevpn-server/src/main.rs: the end of `handle_connection`, behind the slot of the active client:
-- which pumps a task runs, with which settings, and what it returns.
use rust_vpn.Prelude.{ℕ, ◌+◌, Bool, not, Result, ok, ◌>>=◌, ◌>>◌, bail_if}
use rust_vpn.Core.Config.{VpnTransportMode, datagram, stream}
use rust_vpn.Core.Config.Server.{ServerConfig}

pub data PumpsError : Type 0 where
  open_failed accept_failed pump_failed : PumpsError

-- The pumps of the two transports with their settings.
pub data Pumps : Type 0 where
  -- `pump_tun_to_quic` with the MTU, the target, the backlog and `adaptive`, and `pump_quic_to_tun`
  datagram_pumps : ℕ → ℕ → ℕ → Bool → Pumps
  -- `pump_tun_to_stream` with the MTU, the target and `adaptive`, and `pump_stream_to_tun` with its limit
  stream_pumps : ℕ → ℕ → Bool → ℕ → Pumps

-- `open_uni`, `accept_uni` and the first pump that ends, with their success.
pub record Answers : Type 0 where
  pub opens_uni : Bool
  pub accepts_uni : Bool
  pub pump_succeeds : Bool

unfoldable pub open_pumps : Answers → ServerConfig → VpnTransportMode → Result PumpsError Pumps
open_pumps a config datagram = ok (
    datagram_pumps config.mtu config.egress_target_mbps config.datagram_backlog_packets
      config.adaptive_egress)
open_pumps a config stream = do
  bail_if (not a.opens_uni) open_failed
  bail_if (not a.accepts_uni) accept_failed
  ok (stream_pumps config.mtu config.egress_target_mbps config.adaptive_egress (config.mtu + 64))

-- The pumps that run, and the value of `handle_connection`.
unfoldable pub run_pumps : Answers → ServerConfig → Result PumpsError Pumps
unfolding open_pumps
run_pumps a config = do
  pumps ← open_pumps a config config.vpn_transport
  bail_if (not a.pump_succeeds) pump_failed
  ok pumps
