-- ===== src/Client/Request.antt =====
-- crates/litevpn-client/src/main.rs: the checks of the command line against those of the server.
use rust_vpn.Prelude.{
  ℕ, subst, ◌≤◌, ◌<◌, ◌≡◌, refl, ◌↔◌, ◌⊎◌, true, Option, none, some, ok, arith, list_eq_iff,
}
use rust_vpn.Client.{
  Args, parse_bench_direction, payload_limit, bench_payload_bytes, bench_target_mbps, bench_runs,
  connect_retries, connect_retry_delay_ms, bench_direction, Plan, planned_runs, plan, auth_mode,
}
use rust_vpn.Core.Auth.{
  BenchDirection, upload, download, stream_upload, stream_download, stream_packet_upload,
  stream_packet_download, as_str, AuthMode, vpn, bench, uses_datagrams, request, parse_request,
}
use rust_vpn.Core.Auth.Mode.{IsAccepted, IsTarget}
use rust_vpn.Core.Auth.RoundTrip.{IsToken, parse_request-request}
use rust_vpn.Text.{Text, chars}
use rust_vpn.Text.Number.{max_u64}

parse_bench_direction-as_str : (d : BenchDirection) → parse_bench_direction (as_str d) ≡ ok d
unfolding parse_bench_direction as_str
parse_bench_direction-as_str upload = refl
parse_bench_direction-as_str download = refl
parse_bench_direction-as_str stream_upload = refl
parse_bench_direction-as_str stream_download = refl
parse_bench_direction-as_str stream_packet_upload = refl
parse_bench_direction-as_str stream_packet_download = refl

as_str-parse_bench_direction :
    (w : Text) (d : BenchDirection) → parse_bench_direction w ≡ ok d → as_str d ≡ w
unfolding parse_bench_direction as_str
as_str-parse_bench_direction w upload h = ground (arith, list_eq_iff w (chars "upload"))
as_str-parse_bench_direction w download h = ground (arith, list_eq_iff w (chars "download"))
as_str-parse_bench_direction w stream_upload h =
    ground (arith, list_eq_iff w (chars "stream-upload"))
as_str-parse_bench_direction w stream_download h =
    ground (arith, list_eq_iff w (chars "stream-download"))
as_str-parse_bench_direction w stream_packet_upload h =
    ground (arith, list_eq_iff w (chars "stream-packet-upload"))
as_str-parse_bench_direction w stream_packet_download h =
    ground (arith, list_eq_iff w (chars "stream-packet-download"))

-- The words of the command line are those of the protocol, and no others.
pub parse_bench_direction_iff :
    (w : Text) (d : BenchDirection) → (parse_bench_direction w ≡ ok d) ↔ (as_str d ≡ w)
parse_bench_direction_iff w d = (
  as_str-parse_bench_direction w d,
  λ e. subst (λ (v : Text). parse_bench_direction v ≡ ok d) e (parse_bench_direction-as_str d),
)

-- A payload that passes the check: 64 bytes or more, within the tunnel's MTU and, where the direction
-- uses datagrams, within the connection's limit; the number asked for, or the limit for 0.
pub record IsPayload (d : BenchDirection) (requested : ℕ) (max_datagram_size : Option ℕ) (mtu n : ℕ)
    : Type 0 where
  pub large_enough : 64 ≤ n
  pub in_mtu : n ≤ mtu
  pub in_datagram : (m : ℕ) → uses_datagrams d ≡ true → max_datagram_size ≡ some m → n ≤ m
  pub as_asked : (requested ≡ n) ⊎ ((requested ≡ 0) × (n ≡ payload_limit d max_datagram_size mtu))

pub bench_payload_bytes-IsPayload :
    (d : BenchDirection) (requested : ℕ) (m : Option ℕ) (mtu n : ℕ)
    → bench_payload_bytes d requested m mtu ≡ ok n
    → IsPayload d requested m mtu n
unfolding bench_payload_bytes payload_limit
bench_payload_bytes-IsPayload d requested m mtu n h = record {
  large_enough = ground arith;
  in_mtu = ground arith;
  in_datagram = λ max u e. ground arith;
  as_asked = ground arith;
}

bench_target_mbps-IsTarget : (v : ℕ) (t : Option ℕ) → bench_target_mbps v ≡ ok t → IsTarget t
unfolding bench_target_mbps
bench_target_mbps-IsTarget v none h = tt
bench_target_mbps-IsTarget v (some t) h = ground arith

-- What `main` connects with.
pub record IsPlan (args : Args) (p : Plan) : Type 0 where
  pub direction : bench_direction args.bench ≡ ok p.direction
  pub target : IsTarget p.target_mbps
  pub some_retries : 0 < p.retries
  pub few_retries : p.retries ≤ 100
  pub short_delay : p.retry_delay_ms ≤ 60000
  pub some_runs : 0 < p.runs
  pub few_runs : p.runs ≤ 100

planned_runs-le :
    (d : Option BenchDirection) (v n : ℕ) → planned_runs d v ≡ ok n → (0 < n) × (n ≤ 100)
unfolding planned_runs bench_runs
planned_runs-le none v n h = ground arith
planned_runs-le (some d) v n h = ground arith

pub plan-IsPlan : (args : Args) (p : Plan) → plan args ≡ ok p → IsPlan args p
unfolding plan connect_retries connect_retry_delay_ms
plan-IsPlan args p h = record {
  direction = ground arith;
  target = ground (arith, bench_target_mbps-IsTarget args.bench_target_mbps p.target_mbps);
  some_retries = ground arith;
  few_retries = ground arith;
  short_delay = ground arith;
  some_runs = ground (arith, planned_runs-le p.direction args.bench_runs p.runs);
  few_runs = ground (arith, planned_runs-le p.direction args.bench_runs p.runs);
}

auth_mode-IsAccepted :
    (args : Args) (d : Option BenchDirection) (t m : Option ℕ) (mtu : ℕ) (mode : AuthMode)
    → auth_mode args d t m mtu ≡ ok mode
    → IsTarget t
    → mtu ≤ 1400
    → 0 < args.bench_duration_secs
    → args.bench_duration_secs ≤ max_u64
    → IsAccepted mode
unfolding auth_mode
auth_mode-IsAccepted args d t m mtu vpn k target small long fits = tt
auth_mode-IsAccepted args none t m mtu (bench e n p u) k target small long fits =
    absurd (ground arith)
auth_mode-IsAccepted args (some d) t m mtu (bench e n p u) k target small long fits =
    let payload : IsPayload d args.bench_payload_bytes m mtu p =
      bench_payload_bytes-IsPayload d args.bench_payload_bytes m mtu p (ground arith) in
    let same : t ≡ u = ground arith in
    (
      ground arith,
      ground arith,
      payload.large_enough,
      ground (arith, payload.in_mtu),
      subst IsTarget same target,
    )

-- Whatever the command line asks for and `main` lets through, the server reads it as it was meant: the
-- request with that token and that mode is parsed back into the same token and mode. The duration is
-- the one number that the client does not check, so it must not be 0; the MTU is one that the
-- validation lets through.
pub main_request_accepted :
    (args : Args) (p : Plan) (m : Option ℕ) (mtu : ℕ) (mode : AuthMode) (token : Text)
    → plan args ≡ ok p
    → auth_mode args p.direction p.target_mbps m mtu ≡ ok mode
    → mtu ≤ 1400
    → 0 < args.bench_duration_secs
    → args.bench_duration_secs ≤ max_u64
    → IsToken token
    → parse_request (request token mode) ≡ ok (token, mode)
main_request_accepted args p m mtu mode token h k small long fits is_token =
    parse_request-request token mode is_token (
      auth_mode-IsAccepted args p.direction p.target_mbps m mtu mode k (plan-IsPlan args p h).target
        small long fits)
