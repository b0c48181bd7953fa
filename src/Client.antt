-- ===== src/Client.antt =====
-- crates/litevpn-client/src/main.rs: the command line, its checks and the mode that `main` requests.
pub mod Connect
pub mod Routes
pub mod Request
pub mod Summary
pub mod Bench
pub mod Session
pub mod Main
use rust_vpn.Prelude.{
  ℕ, ◌≤◌, ◌<◌, ◌≡◌, refl, Bool, true, false, Option, none, some, List, Result, ok, err, bail_if,
  ◌>>=◌, ◌>>◌, ltb, ◌==◌, if◌then◌else◌, list_eq, min,
}
use rust_vpn.Core.Auth.{
  BenchDirection, upload, download, stream_upload, stream_download, stream_packet_upload,
  stream_packet_download, uses_datagrams, AuthMode, vpn, bench,
}
use rust_vpn.Text.{Text, chars}

pub record Args : Type 0 where
  pub config : Text
  pub no_routes : Bool
  pub cleanup_routes : Bool
  pub probe : Bool
  pub probe_hold_secs : ℕ
  pub connect_timeout_secs : ℕ
  pub connect_retries : ℕ
  pub connect_retry_delay_ms : ℕ
  pub bench : Option Text
  pub bench_duration_secs : ℕ
  pub bench_payload_bytes : ℕ
  pub bench_target_mbps : ℕ
  pub bench_runs : ℕ
  pub bench_run_gap_ms : ℕ

-- One constructor for each message of a `bail!`.
pub data ArgsError : Type 0 where
  bad_bench : ArgsError
  limit_too_small payload_too_small payload_exceeds_limit : ArgsError
  target_too_large no_runs too_many_runs no_retries too_many_retries delay_too_long : ArgsError

unfoldable pub parse_bench_direction : Text → Result ArgsError BenchDirection
parse_bench_direction value =
    if list_eq value (chars "upload")
    then ok upload
    else if list_eq value (chars "download")
    then ok download
    else if list_eq value (chars "stream-upload")
    then ok stream_upload
    else if list_eq value (chars "stream-download")
    then ok stream_download
    else if list_eq value (chars "stream-packet-upload")
    then ok stream_packet_upload
    else if list_eq value (chars "stream-packet-download")
    then ok stream_packet_download
    else err bad_bench

-- `max_datagram_size.unwrap_or(config_mtu)`
abbrev unwrap_or : Option ℕ → ℕ → ℕ
unwrap_or none n = n
unwrap_or (some m) n = m

unfoldable pub payload_limit : BenchDirection → Option ℕ → ℕ → ℕ
payload_limit direction max_datagram_size config_mtu =
    if uses_datagrams direction
    then min (unwrap_or max_datagram_size config_mtu) config_mtu
    else config_mtu

unfoldable pub bench_payload_bytes : BenchDirection → ℕ → Option ℕ → ℕ → Result ArgsError ℕ
bench_payload_bytes direction requested max_datagram_size config_mtu = do
  let max = payload_limit direction max_datagram_size config_mtu
  bail_if (ltb max 64) limit_too_small
  let payload_bytes = if requested == 0 then max else requested
  bail_if (ltb payload_bytes 64) payload_too_small
  bail_if (ltb max payload_bytes) payload_exceeds_limit
  ok payload_bytes

unfoldable pub bench_target_mbps : ℕ → Result ArgsError (Option ℕ)
bench_target_mbps value =
    if value == 0
    then ok none
    else if ltb 10_000 value
    then err target_too_large
    else ok (some value)

unfoldable pub bench_runs : ℕ → Result ArgsError ℕ
bench_runs value = do bail_if (value == 0) no_runs; bail_if (ltb 100 value) too_many_runs; ok value

unfoldable pub connect_retries : ℕ → Result ArgsError ℕ
connect_retries value = do
  bail_if (value == 0) no_retries
  bail_if (ltb 100 value) too_many_retries
  ok value

unfoldable pub connect_retry_delay_ms : ℕ → Result ArgsError ℕ
connect_retry_delay_ms value = do bail_if (ltb 60_000 value) delay_too_long; ok value

-- `args.bench.as_deref().map(parse_bench_direction).transpose()?`
unfoldable pub bench_direction : Option Text → Result ArgsError (Option BenchDirection)
bench_direction none = ok none
bench_direction (some value) = do direction ← parse_bench_direction value; ok (some direction)

-- What `main` knows of its arguments when it goes on to connect.
pub record Plan : Type 0 where
  pub direction : Option BenchDirection
  pub target_mbps : Option ℕ
  pub retries : ℕ
  pub retry_delay_ms : ℕ
  pub runs : ℕ

-- `if bench_direction.is_some() { bench_runs(args.bench_runs)? } else { 1 }`
unfoldable pub planned_runs : Option BenchDirection → ℕ → Result ArgsError ℕ
planned_runs none runs = ok 1
planned_runs (some direction) runs = bench_runs runs

-- The checks of `main` between the token and the connection.
unfoldable pub plan : Args → Result ArgsError Plan
plan args = do
  direction ← bench_direction args.bench
  target_mbps ← bench_target_mbps args.bench_target_mbps
  retries ← connect_retries args.connect_retries
  retry_delay_ms ← connect_retry_delay_ms args.connect_retry_delay_ms
  runs ← planned_runs direction args.bench_runs
  ok (record {
    direction = direction;
    target_mbps = target_mbps;
    retries = retries;
    retry_delay_ms = retry_delay_ms;
    runs = runs;
  })

-- The mode that `main` requests on a connection with this limit for datagrams.
unfoldable pub auth_mode :
    Args → Option BenchDirection → Option ℕ → Option ℕ → ℕ → Result ArgsError AuthMode
auth_mode args none target_mbps max_datagram_size mtu = ok vpn
auth_mode args (some direction) target_mbps max_datagram_size mtu = do
  payload_bytes ← bench_payload_bytes direction args.bench_payload_bytes max_datagram_size mtu
  ok (bench direction args.bench_duration_secs payload_bytes target_mbps)
