-- ===== src/Client/Summary.antt =====
-- crates/litevpn-client/src/main.rs: how the client reads the summary of a bench run.
pub mod RoundTrip
use rust_vpn.Prelude.{
  ℕ, Bool, true, false, Option, none, some, List, [], ◌∷◌, ◌++◌, Result, ok, err, context, ◌>>=◌,
}
use rust_vpn.Core.Quic.Pacer.{Float}
use rust_vpn.Server.Summary.{bench_summary_magic}
use rust_vpn.Text.{Text, chars, strip_prefix, trim}
use rust_vpn.Text.Number.{parse_u64}
use rust_vpn.Text.Utf8.{Bytes, from_utf8}
use rust_vpn.Text.Words.{words}

pub data SummaryError : Type 0 where
  accept_failed read_failed not_utf8 invalid_summary : SummaryError

pub record ServerBenchMeasurement (F : Type 0) : Type 0 where
  pub mbps : F
  pub bytes : ℕ
  pub packets : ℕ
  pub lost_packets : ℕ
  pub congestion_events : ℕ
  pub elapsed_ms : ℕ

unfoldable pub parse_bench_summary : Bytes → Result SummaryError (Option Text)
parse_bench_summary packet = elim (strip_prefix bench_summary_magic packet) [
  | none ↦ ok none
  | some summary ↦ do text ← context (from_utf8 summary) not_utf8; ok (some (trim text))
]

-- `find_map(|part| part.strip_prefix(&prefix))`
unfoldable pub find_value : Text → List Text → Option Text
find_value prefix [] = none
find_value prefix (part ∷ parts) = elim (strip_prefix prefix part) [
  | none ↦ find_value prefix parts
  | some value ↦ some value
]

-- `value.parse().ok()` behind it
abbrev pub parse_value : Option Text → Option ℕ
parse_value none = none
parse_value (some value) = parse_u64 value

unfoldable pub parse_summary_u64 : Text → Text → Option ℕ
parse_summary_u64 summary key = parse_value (find_value (key ++ chars "=") (words summary))

abbrev or_else : Option ℕ → Option ℕ → Option ℕ
or_else none b = b
or_else (some a) b = some a

abbrev unwrap_or : Option ℕ → ℕ → ℕ
unwrap_or none b = b
unwrap_or (some a) b = a

module _ {F : Type 0} (f : Float F) where
  -- `bytes as f64 * 8.0 / seconds / 1_000_000.0`
  unfoldable pub mbps : ℕ → ℕ → F
  mbps bytes elapsed_ms =
      let seconds = f.larger (f.div (f.of_u64 elapsed_ms) (f.literal 1000 1)) (f.literal 1 1000) in
      f.div (f.div (f.mul (f.of_u64 bytes) (f.literal 8 1)) seconds) (f.literal 1_000_000 1)

  -- The three numbers that a summary must have, and the two that it may lack.
  measurement : Option ℕ → Option ℕ → Option ℕ → ℕ → ℕ → Option (ServerBenchMeasurement F)
  measurement (some bytes) (some packets) (some elapsed_ms) lost_packets congestion_events =
      some (record {
        mbps = mbps bytes elapsed_ms;
        bytes = bytes;
        packets = packets;
        lost_packets = lost_packets;
        congestion_events = congestion_events;
        elapsed_ms = elapsed_ms;
      })
  measurement _ _ _ lost_packets congestion_events = none

  unfoldable pub parse_server_bench_measurement : Text → Option (ServerBenchMeasurement F)
  unfolding measurement
  parse_server_bench_measurement summary =
      measurement (parse_summary_u64 summary (chars "bytes"))
        (parse_summary_u64 summary (chars "packets"))
        (or_else (parse_summary_u64 summary (chars "measured_elapsed_ms"))
          (parse_summary_u64 summary (chars "elapsed_ms")))
        (unwrap_or (parse_summary_u64 summary (chars "lost_packets")) 0)
        (unwrap_or (parse_summary_u64 summary (chars "congestion_events")) 0)

-- `read_bench_summary_stream`, with what `accept_bi` and `read_to_end` answer.
unfoldable pub read_bench_summary_stream : Bool → (ℕ → Option Bytes) → Result SummaryError Text
read_bench_summary_stream false read_to_end = err accept_failed
read_bench_summary_stream true read_to_end = do
  packet ← context (read_to_end 1024) read_failed
  summary ← parse_bench_summary packet
  context summary invalid_summary
