-- ===== src/Tests/Main.antt =====
-- `main` of the client in a concrete world.
use rust_vpn.Prelude.{ℕ, ◌≡◌, refl, true, false, none, some, ok, []}
use rust_vpn.Bench.{ran}
use rust_vpn.Client.{Args}
use rust_vpn.Client.Connect.{connected}
use rust_vpn.Client.Main.{main}
use rust_vpn.Client.Session.{World, signalled, ctrl_c}
use rust_vpn.Client.Main.Clean.{main_leaves_no_routes}
use rust_vpn.Client.Main.Script.{Script}
use rust_vpn.Client.Main.Ordered.{main-Script}
use rust_vpn.Client.Routes.Guard.{IsClean}
use rust_vpn.Client.Routes.Lookup.{exited}
use rust_vpn.Core.Config.{
  load_toml, stream, validate_common, validate_udp_socket_buffers, validate_egress_target,
  validate_datagram_backlog, is_blank,
}
use rust_vpn.Core.Config.Client.{ClientConfig, validate}
use rust_vpn.Core.Config.Client
use rust_vpn.Core.Tun.{macos}
use rust_vpn.Tests.Routes.{
  Table, table_route, table_laws, deletes, stale, stale_netstat, stale-IsListed, stale_removed,
}
use rust_vpn.Text.{chars, trim}

abbrev pub arguments : Args
arguments = record {
  config = chars "client.toml";
  no_routes = false;
  cleanup_routes = false;
  probe = false;
  probe_hold_secs = 0;
  connect_timeout_secs = 10;
  connect_retries = 3;
  connect_retry_delay_ms = 500;
  bench = none;
  bench_duration_secs = 10;
  bench_payload_bytes = 0;
  bench_target_mbps = 0;
  bench_runs = 1;
  bench_run_gap_ms = 0;
}

abbrev pub client_config : ClientConfig
client_config = record Client.default { vpn_transport = stream }

-- The server's packet stream does not come.
abbrev pub world : World ℕ ℕ ℕ Table
world = record {
  os = macos;
  config_file = some (chars "vpn_transport = stream");
  from_str = λ raw. some client_config;
  server_addr = some (some (chars "161.33.36.181"));
  token_file = some (chars "0123456789abcdef0123456789abcdef\n");
  crypto = true;
  connect_once = λ attempt. ok 7;
  max_datagram_size = λ connection. some 1350;
  authenticates = λ connection token mode. true;
  reconnect = λ run. connected 7;
  reauthenticates = λ run connection. true;
  run_bench = λ run connection. ran 0;
  tun_created = true;
  route = table_route;
  netstat = stale_netstat;
  get_default = λ t. exited true (chars "gateway: 192.168.35.1\n");
  address_text = λ a. chars "10.66.0.1";
  opens_uni = true;
  accepts_uni = false;
  ended = signalled (ctrl_c true);
}

valid : validate client_config ≡ ok tt
unfolding validate validate_common validate_udp_socket_buffers validate_egress_target
    validate_datagram_backlog is_blank trim
valid = refl

reads : load_toml world.from_str world.config_file ≡ ok client_config
unfolding load_toml
reads = refl

main_leaves_no_routes_example :
    IsClean table_route
      (λ t x. t x)
      table_laws
      (main world arguments (record { table = stale; log = [] })).1.table
      (chars "161.33.36.181")
main_leaves_no_routes_example =
    main_leaves_no_routes world arguments (λ t x. t x) table_laws deletes (chars "161.33.36.181")
      client_config refl refl (record { table = stale; log = [] }) reads valid refl stale-IsListed
      stale_removed

main-Script_example :
    Script world arguments (main world arguments (record { table = stale; log = [] })).1.log
main-Script_example = main-Script world arguments (record { table = stale; log = [] }) refl
