-- ===== src/Server/Summary.antt =====
-- The summary of a bench run: `send_bench_summary` of crates/litevpn-server/src/main.rs and
-- `connection_stats_summary` of crates/litevpn-core/src/quic.rs. The connection's statistics are an
-- argument; durations are whole milliseconds.
use rust_vpn.Prelude.{ℕ, Option, none, some, List, [], ◌∷◌, ◌++◌}
use rust_vpn.Core.Auth.{BenchDirection, as_str}
use rust_vpn.Text.{Text, chars, newline}
use rust_vpn.Text.Number.{display}
use rust_vpn.Text.Utf8.{Bytes, as_bytes}
use rust_vpn.Text.Words.{unwords}

abbrev pub bench_summary_magic : Text
bench_summary_magic = chars "LVPNBENCH "

-- What is printed of `connection.stats()`.
pub record Stats : Type 0 where
  pub udp_tx_datagrams : ℕ
  pub udp_tx_bytes : ℕ
  pub udp_rx_datagrams : ℕ
  pub udp_rx_bytes : ℕ
  pub lost_packets : ℕ
  pub lost_bytes : ℕ
  pub congestion_events : ℕ
  pub cwnd : ℕ
  pub rtt_ms : ℕ
  pub current_mtu : ℕ
  pub frame_tx_datagram : ℕ
  pub frame_rx_datagram : ℕ

-- The words of `connection_stats_summary`.
abbrev pub connection_stats_summary : Stats → List Text
connection_stats_summary s =
    (chars "udp_tx_datagrams=" ++ display s.udp_tx_datagrams)
    ∷ (chars "udp_tx_bytes=" ++ display s.udp_tx_bytes)
    ∷ (chars "udp_rx_datagrams=" ++ display s.udp_rx_datagrams)
    ∷ (chars "udp_rx_bytes=" ++ display s.udp_rx_bytes)
    ∷ (chars "lost_packets=" ++ display s.lost_packets)
    ∷ (chars "lost_bytes=" ++ display s.lost_bytes)
    ∷ (chars "congestion_events=" ++ display s.congestion_events)
    ∷ (chars "cwnd=" ++ display s.cwnd)
    ∷ (chars "rtt_ms=" ++ display s.rtt_ms)
    ∷ (chars "current_mtu=" ++ display s.current_mtu)
    ∷ (chars "frame_tx_datagram=" ++ display s.frame_tx_datagram)
    ∷ (chars "frame_rx_datagram=" ++ display s.frame_rx_datagram)
    ∷ []

-- The arguments of `send_bench_summary`.
pub record Summary : Type 0 where
  pub direction : BenchDirection
  pub elapsed_ms : ℕ
  pub measured_elapsed_ms : ℕ
  pub bytes : ℕ
  pub packets : ℕ
  pub payload_bytes : ℕ
  pub target_mbps : Option ℕ
  pub stats : Stats

unfoldable pub target_text : Option ℕ → Text
target_text none = chars "unlimited"
target_text (some value) = display value

-- The words of the summary behind the magic.
abbrev pub summary_words : Summary → List Text
summary_words s =
    (chars "direction=" ++ as_str s.direction)
    ∷ (chars "bytes=" ++ display s.bytes)
    ∷ (chars "packets=" ++ display s.packets)
    ∷ (chars "payload_bytes=" ++ display s.payload_bytes)
    ∷ (chars "target_mbps=" ++ target_text s.target_mbps)
    ∷ (chars "elapsed_ms=" ++ display s.elapsed_ms)
    ∷ (chars "measured_elapsed_ms=" ++ display s.measured_elapsed_ms)
    ∷ connection_stats_summary s.stats

-- The bytes that `send_bench_summary` writes.
unfoldable pub bench_summary : Summary → Bytes
bench_summary s = as_bytes (bench_summary_magic ++ (unwords (summary_words s) ++ newline ∷ []))
