-- ===== src/Tests/Admission.antt =====
-- A client in front of a server with the same token.
use rust_vpn.Prelude.{ℕ, ◌≡◌, refl, true, ok, [], arith, subst}
use rust_vpn.Client.{
  plan, auth_mode, bench_direction, bench_target_mbps, connect_retries, connect_retry_delay_ms,
  planned_runs,
}
use rust_vpn.Client.Connect.{connect_client}
use rust_vpn.Client.Main.{main}
use rust_vpn.Client.Main.Admission.{IsSendable, is_ok, has_served, tunnel_needs_token}
use rust_vpn.Client.Session.{World, Session, up_ended, ◌>>=◌}
use rust_vpn.Core.Auth.{vpn}
use rust_vpn.Core.Auth.Exchange.{exchange, exchange_lem}
use rust_vpn.Core.Config.{
  load_toml, validate_common, validate_udp_socket_buffers, validate_egress_target,
  validate_datagram_backlog, is_blank,
}
use rust_vpn.Core.Config.Client
use rust_vpn.Core.Token.{load_token}
use rust_vpn.Core.Tun.{linux}
use rust_vpn.Tests.Core.{within, within_delivers}
use rust_vpn.Tests.Main.{world, arguments}
use rust_vpn.Tests.Routes.{Table, stale}
use rust_vpn.Tests.Schedule.{token, token-IsToken}
use rust_vpn.Text.{Text, trim}
use rust_vpn.Text.Utf8.{as_bytes}

abbrev here : World ℕ ℕ ℕ Table
here = record world {
  os = linux;
  accepts_uni = true;
  authenticates = λ connection sent mode. is_ok (exchange within sent token mode).1;
  ended = up_ended true;
}

abbrev fresh : Session Table
fresh = record { table = stale; log = [] }

loads : load_token here.token_file ≡ ok token
unfolding load_token trim as_bytes
loads = refl

sendable : (sent : Text) → load_token here.token_file ≡ ok sent → IsSendable sent
sendable sent h = subst IsSendable same (token-IsToken, unfold as_bytes in omega arith)
  where
    same : token ≡ sent
    same = ground (arith, loads, h)

admits : exchange within token token vpn ≡ (ok vpn, ok tt)
admits =
    exchange_lem within within_delivers token token vpn token-IsToken
      (unfold as_bytes in omega arith) tt

serves_here : has_served (main here arguments fresh).1.log ≡ true
unfolding main ◌>>=◌ auth_mode has_served load_toml load_token trim as_bytes plan connect_client
    Client.validate validate_common validate_udp_socket_buffers validate_egress_target
    validate_datagram_backlog is_blank bench_direction bench_target_mbps connect_retries
    connect_retry_delay_ms planned_runs
serves_here = rw admits refl

tunnel_needs_token_example :
    (load_token here.token_file ≡ ok token) × ((exchange within token token vpn).0 ≡ ok vpn)
tunnel_needs_token_example =
    tunnel_needs_token within within_delivers token here arguments (λ connection sent mode. refl)
      sendable fresh refl serves_here
