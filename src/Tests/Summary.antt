-- ===== src/Tests/Summary.antt =====
-- The summary of a run at a concrete input.
use rust_vpn.Prelude.{◌≡◌, ◌≤◌, refl, true, none, some, ok, arith, length}
use rust_vpn.Client.Summary.{
  parse_server_bench_measurement, parse_summary_u64, find_value, read_bench_summary_stream,
}
use rust_vpn.Client.Summary.RoundTrip.{measured, read_bench_summary}
use rust_vpn.Core.Auth.{download, as_str}
use rust_vpn.Server.Summary.{Stats, Summary, target_text, bench_summary}
use rust_vpn.Tests.Core.{within, within_delivers}
use rust_vpn.Tests.Pacing.{fixed}
use rust_vpn.Text.{Text, chars, strip_prefix}
use rust_vpn.Text.Number.{display, parse_u64}
use rust_vpn.Text.Utf8.{as_bytes}
use rust_vpn.Text.Words.{words}

abbrev pub stats : Stats
stats = record {
  udp_tx_datagrams = 21963;
  udp_tx_bytes = 29000000;
  udp_rx_datagrams = 900;
  udp_rx_bytes = 40000;
  lost_packets = 54;
  lost_bytes = 70000;
  congestion_events = 3;
  cwnd = 120000;
  rtt_ms = 21;
  current_mtu = 1452;
  frame_tx_datagram = 21960;
  frame_rx_datagram = 0;
}

abbrev summary : Summary
summary = record {
  direction = download;
  elapsed_ms = 6001;
  measured_elapsed_ms = 6000;
  bytes = 28548000;
  packets = 21960;
  payload_bytes = 1300;
  target_mbps = some 38;
  stats = stats;
}

summary_fits : length (bench_summary summary) ≤ 1024
unfolding bench_summary as_bytes display as_str target_text
summary_fits = omega arith

read_bench_summary_example :
    (text : Text) × (read_bench_summary_stream true (λ limit. within limit (bench_summary summary))
      ≡ ok text)
    × (parse_server_bench_measurement fixed text ≡ some (measured fixed summary))
read_bench_summary_example =
    read_bench_summary fixed summary (λ limit. within limit (bench_summary summary))
      (within_delivers 1024 (bench_summary summary) summary_fits)
      (record {
        bytes = omega arith;
        packets = omega arith;
        elapsed = omega arith;
        lost = omega arith;
        congestion = omega arith;
      })

-- Without the measured time the total time is taken, and without lost packets there are none.
fallback_test :
    (parse_summary_u64
        (chars "direction=download bytes=1000 packets=1 elapsed_ms=1000")
        (chars "elapsed_ms")
      ≡ some 1000)
    × (parse_summary_u64 (chars "bytes=1 packets=1") (chars "elapsed_ms") ≡ none)
unfolding parse_summary_u64 find_value words strip_prefix parse_u64
fallback_test = (refl, refl)
