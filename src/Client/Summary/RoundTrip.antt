-- ===== src/Client/Summary/RoundTrip.antt =====
-- The client reads the summary that the server prints.
use rust_vpn.Prelude.{
  ℕ, true, ◌≡◌, ◌≢◌, ◌≤◌, ◌<◌, refl, ap, ◌∙◌, Option, none, some, List, [], ◌∷◌, ◌++◌, ok, All,
  All-append, arith, length,
}
use rust_vpn.Client.Summary.{
  ServerBenchMeasurement, parse_bench_summary, find_value, parse_summary_u64, mbps,
  parse_server_bench_measurement, read_bench_summary_stream,
}
use rust_vpn.Core.Auth.{as_str}
use rust_vpn.Core.Auth.RoundTrip.{IsVisible, visible-Solid, display-IsVisible, as_str-IsVisible}
use rust_vpn.Core.Quic.Pacer.{Float}
use rust_vpn.Server.Summary.{
  bench_summary_magic, Stats, connection_stats_summary, Summary, target_text, summary_words,
  bench_summary,
}
use rust_vpn.Text.{is_whitespace, Text, chars, newline, strip_prefix, strip_prefix-append, trim}
use rust_vpn.Text.Number.{display, max_u64, parse_u64-display}
use rust_vpn.Text.Utf8.{
  Bytes, IsAscii, IsChar, as_bytes, as_bytes-ascii, as_bytes-append, from_utf8, from_utf8-as_bytes,
}
use rust_vpn.Text.Words.{words, unwords, IsWord, words-unwords}
use rust_vpn.Text.Words.Trim.{words-trim, words-ended}

-- A word of visible ASCII.
abbrev IsField : Text → Type 0
IsField w = (w ≢ []) × All IsVisible w

abbrev IsKey : Text → Type 0
IsKey key = (0 < length key) × All IsVisible key

field : (key value : Text) → IsKey key → All IsVisible value → IsField (key ++ value)
field [] value h v = absurd (omega (arith, h.0))
field (k ∷ key) value h v = ((λ e. cc), All-append IsVisible (k ∷ key) value h.1 v)

number : (key : Text) (n : ℕ) → IsKey key → IsField (key ++ display n)
number key n h = field key (display n) h (display-IsVisible n)

target_text-IsVisible : (t : Option ℕ) → All IsVisible (target_text t)
unfolding target_text
target_text-IsVisible none = omega arith
target_text-IsVisible (some t) = display-IsVisible t

connection_stats_summary_fields : (s : Stats) → All IsField (connection_stats_summary s)
connection_stats_summary_fields s = (
  number (chars "udp_tx_datagrams=") s.udp_tx_datagrams (omega arith),
  (
    number (chars "udp_tx_bytes=") s.udp_tx_bytes (omega arith),
    (
      number (chars "udp_rx_datagrams=") s.udp_rx_datagrams (omega arith),
      (
        number (chars "udp_rx_bytes=") s.udp_rx_bytes (omega arith),
        (
          number (chars "lost_packets=") s.lost_packets (omega arith),
          (
            number (chars "lost_bytes=") s.lost_bytes (omega arith),
            (
              number (chars "congestion_events=") s.congestion_events (omega arith),
              (
                number (chars "cwnd=") s.cwnd (omega arith),
                (
                  number (chars "rtt_ms=") s.rtt_ms (omega arith),
                  (
                    number (chars "current_mtu=") s.current_mtu (omega arith),
                    (
                      number (chars "frame_tx_datagram=") s.frame_tx_datagram (omega arith),
                      (number (chars "frame_rx_datagram=") s.frame_rx_datagram (omega arith), tt),
                    ),
                  ),
                ),
              ),
            ),
          ),
        ),
      ),
    ),
  ),
)

summary_words_fields : (s : Summary) → All IsField (summary_words s)
summary_words_fields s = (
  field (chars "direction=") (as_str s.direction) (omega arith) (as_str-IsVisible s.direction).1,
  (
    number (chars "bytes=") s.bytes (omega arith),
    (
      number (chars "packets=") s.packets (omega arith),
      (
        number (chars "payload_bytes=") s.payload_bytes (omega arith),
        (
          field (chars "target_mbps=") (target_text s.target_mbps) (omega arith)
              (target_text-IsVisible s.target_mbps),
          (
            number (chars "elapsed_ms=") s.elapsed_ms (omega arith),
            (
              number (chars "measured_elapsed_ms=") s.measured_elapsed_ms (omega arith),
              connection_stats_summary_fields s.stats,
            ),
          ),
        ),
      ),
    ),
  ),
)

fields_words : (ws : List Text) → All IsField ws → All IsWord ws
fields_words [] h = tt
fields_words (w ∷ ws) h = ((h.0.0, visible-Solid w h.0.1), fields_words ws h.1)

visible-IsAscii : (s : Text) → All IsVisible s → All IsAscii s
visible-IsAscii [] h = tt
visible-IsAscii (c ∷ s) h = (omega arith, visible-IsAscii s h.1)

unwords-IsAscii : (ws : List Text) → All IsField ws → All IsAscii (unwords ws)
unwords-IsAscii [] h = tt
unwords-IsAscii (w ∷ []) h = visible-IsAscii w h.0.1
unwords-IsAscii (w ∷ v ∷ ws) h =
    All-append IsAscii w (b' ' ∷ unwords (v ∷ ws)) (visible-IsAscii w h.0.1)
      (omega arith, unwords-IsAscii (v ∷ ws) h.1)

IsAscii-IsChar : (s : Text) → All IsAscii s → All IsChar s
IsAscii-IsChar [] h = tt
IsAscii-IsChar (c ∷ s) h = (ground arith, IsAscii-IsChar s h.1)

-- The summary behind the magic.
abbrev line : Summary → Text
line s = unwords (summary_words s) ++ newline ∷ []

line-IsAscii : (s : Summary) → All IsAscii (line s)
line-IsAscii s =
    All-append IsAscii (unwords (summary_words s)) (newline ∷ [])
      (unwords-IsAscii (summary_words s) (summary_words_fields s)) (omega arith)

parse_bench_summary-ok :
    (packet bytes : Bytes) (t : Text)
    → strip_prefix bench_summary_magic packet ≡ some bytes
    → from_utf8 bytes ≡ some t
    → parse_bench_summary packet ≡ ok (some (trim t))
unfolding parse_bench_summary strip_prefix trim
parse_bench_summary-ok packet bytes t e d = rw (e, d) refl

bench_summary-magic :
    (s : Summary) → strip_prefix bench_summary_magic (bench_summary s) ≡ some (as_bytes (line s))
unfolding bench_summary
bench_summary-magic s =
    ap (strip_prefix bench_summary_magic) (
      as_bytes-append bench_summary_magic (line s)
      ∙ ap (λ (m : Bytes). m ++ as_bytes (line s))
          (as_bytes-ascii bench_summary_magic (omega arith)))
    ∙ strip_prefix-append bench_summary_magic (as_bytes (line s))

parse_bench_summary-line :
    (s : Summary) → parse_bench_summary (bench_summary s) ≡ ok (some (trim (line s)))
parse_bench_summary-line s =
    parse_bench_summary-ok (bench_summary s) (as_bytes (line s)) (line s) (bench_summary-magic s)
      (from_utf8-as_bytes (line s) (IsAscii-IsChar (line s) (line-IsAscii s)))

words-line : (s : Summary) → words (trim (line s)) ≡ summary_words s
words-line s =
    words-trim (line s)
    ∙ words-ended (unwords (summary_words s)) newline (unfold is_whitespace in refl)
    ∙ words-unwords (summary_words s) (fields_words (summary_words s) (summary_words_fields s))

-- The numbers that the client reads are 64-bit numbers.
pub record IsSmall (s : Summary) : Type 0 where
  pub bytes : s.bytes ≤ max_u64
  pub packets : s.packets ≤ max_u64
  pub elapsed : s.measured_elapsed_ms ≤ max_u64
  pub lost : s.stats.lost_packets ≤ max_u64
  pub congestion : s.stats.congestion_events ≤ max_u64

parse_summary_u64-display :
    (t key : Text) (n : ℕ) (ws : List Text)
    → words t ≡ ws
    → find_value (key ++ chars "=") ws ≡ some (display n)
    → n ≤ max_u64
    → parse_summary_u64 t key ≡ some n
unfolding parse_summary_u64
parse_summary_u64-display t key n ws e d h = rw (e, d) (parse_u64-display n h)

module _ {F : Type 0} (f : Float F) where
  -- What the client is to know of a run.
  abbrev pub measured : Summary → ServerBenchMeasurement F
  measured s = record {
    mbps = mbps f s.bytes s.measured_elapsed_ms;
    bytes = s.bytes;
    packets = s.packets;
    lost_packets = s.stats.lost_packets;
    congestion_events = s.stats.congestion_events;
    elapsed_ms = s.measured_elapsed_ms;
  }

  parse_server_bench_measurement-words :
      (t : Text) (s : Summary)
      → words t ≡ summary_words s
      → IsSmall s
      → parse_server_bench_measurement f t ≡ some (measured s)
  unfolding parse_server_bench_measurement find_value strip_prefix
  parse_server_bench_measurement-words t s e h =
      rw
        (
          parse_summary_u64-display t (chars "bytes") s.bytes _ e refl h.bytes,
          parse_summary_u64-display t (chars "packets") s.packets _ e refl h.packets,
          parse_summary_u64-display t (chars "measured_elapsed_ms") s.measured_elapsed_ms _ e refl
              h.elapsed,
          parse_summary_u64-display t (chars "lost_packets") s.stats.lost_packets _ e refl h.lost,
          parse_summary_u64-display t (chars "congestion_events") s.stats.congestion_events _ e refl
              h.congestion,
        )
        refl

  -- The client reads from the summary stream what the server measured: bytes and packets, the measured
  -- time and not the total, the lost packets and the congestion events, and the rate that they give. It
  -- holds for 64-bit numbers, where the stream delivers the summary whole.
  pub read_bench_summary :
      (s : Summary) (read_to_end : ℕ → Option Bytes)
      → read_to_end 1024 ≡ some (bench_summary s)
      → IsSmall s
      → (text : Text) × (read_bench_summary_stream true read_to_end ≡ ok text)
        × (parse_server_bench_measurement f text ≡ some (measured s))
  read_bench_summary s read_to_end e h = (
    trim (line s),
    unfold read_bench_summary_stream in rw (e, parse_bench_summary-line s) refl,
    parse_server_bench_measurement-words (trim (line s)) s (words-line s) h,
  )
