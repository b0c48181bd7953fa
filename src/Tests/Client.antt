-- ===== src/Tests/Client.antt =====
-- The command line and the retries at concrete inputs.
use rust_vpn.Prelude.{ℕ, ◌≡◌, refl, false, some, Result, ok, err, arith, ltb, if◌then◌else◌}
use rust_vpn.Client.{
  Args, parse_bench_direction, payload_limit, bench_payload_bytes, bench_target_mbps, bench_runs,
  connect_retries, connect_retry_delay_ms, bench_direction, Plan, planned_runs, plan, auth_mode,
}
use rust_vpn.Client.Connect.{connect_client, Stops, connect_client-Stops}
use rust_vpn.Client.Request.{main_request_accepted}
use rust_vpn.Core.Auth.{download, AuthMode, bench, uses_datagrams, request, parse_request}
use rust_vpn.Core.Auth.RoundTrip.{IsToken}
use rust_vpn.Text.{Text, chars}

abbrev args : Args
args = record {
  config = chars "config/client.toml";
  no_routes = false;
  cleanup_routes = false;
  probe = false;
  probe_hold_secs = 0;
  connect_timeout_secs = 10;
  connect_retries = 3;
  connect_retry_delay_ms = 500;
  bench = some (chars "download");
  bench_duration_secs = 10;
  bench_payload_bytes = 0;
  bench_target_mbps = 40;
  bench_runs = 2;
  bench_run_gap_ms = 250;
}

abbrev planned : Plan
planned = record {
  direction = some download;
  target_mbps = some 40;
  retries = 3;
  retry_delay_ms = 500;
  runs = 2;
}

args_pass : plan args ≡ ok planned
unfolding plan bench_direction parse_bench_direction bench_target_mbps connect_retries
    connect_retry_delay_ms planned_runs bench_runs
args_pass = refl

payload_checked : bench_payload_bytes download 0 (some 1300) 1364 ≡ ok 1300
unfolding bench_payload_bytes payload_limit uses_datagrams
payload_checked = refl

abbrev mode : AuthMode
mode = bench download 10 1300 (some 40)

mode_planned : auth_mode args (some download) (some 40) (some 1300) 1364 ≡ ok mode
unfolding auth_mode bench_payload_bytes payload_limit uses_datagrams
mode_planned = refl

abbrev token : Text
token = chars "0123456789abcdef"

token_good : IsToken token
token_good = record { not_empty = λ e. cc; one_line = omega arith; is_text = omega arith }

main_request_accepted_example : parse_request (request token mode) ≡ ok (token, mode)
main_request_accepted_example =
    main_request_accepted args planned (some 1300) 1364 mode token args_pass mode_planned
      (omega arith) (omega arith) (omega arith) token_good

-- The third attempt succeeds.
abbrev third : ℕ → Result ℕ ℕ
third attempt = if ltb attempt 3 then err attempt else ok 77

connect_client-Stops_example : Stops third 5 500 (connect_client third 5 500)
connect_client-Stops_example = connect_client-Stops third 5 500 (omega arith)

connect_test : (connect_client third 5 500).slept_ms ≡ 1000
unfolding connect_client
connect_test = refl
