-- ===== src/Client/Main.antt =====
-- crates/litevpn-client/src/main.rs: the parts of `main`, in the order in which it reaches them, read
-- from the last.
pub mod Keeps
pub mod Guarded
pub mod Clean
pub mod Steps
pub mod Script
pub mod Ordered
pub mod Admission
use rust_vpn.Prelude.{
  ℕ, ◌≡◌, refl, Bool, true, false, not, ◌&&◌, ◌||◌, ltb, Option, none, some, Result, ok, err, List,
  [], ◌∷◌, if◌then◌else◌, context,
}
use rust_vpn.Bench.{BenchError, Ran, ran, failed, running}
use rust_vpn.Client.{Args, ArgsError, Plan, plan, auth_mode}
use rust_vpn.Client.Bench.Iterations.{Iterated, run_bench_iterations}
use rust_vpn.Client.Connect.{Outcome, connected, given_up, missing, connect_client}
use rust_vpn.Client.Routes.{Answer, Command, RouteError, RouteGuard, install, cleanup}
use rust_vpn.Client.Routes.Lookup.{Output, default_gateway, cleanup_stale}
use rust_vpn.Core.Auth.{AuthMode, BenchDirection}
use rust_vpn.Core.Config.{ConfigError, Ipv4Addr, VpnTransportMode, datagram, stream, load_toml}
use rust_vpn.Core.Config.Client.{ClientConfig, validate}
use rust_vpn.Core.Token.{load_token}
use rust_vpn.Core.Tun.{TargetOs, linux, macos, bsd, other_os, TunOptions}
use rust_vpn.Server.{ensure_datagram_capacity}
use rust_vpn.Text.{Text}
use rust_vpn.Client.Session.{
  Action, Ended, Main, MainError, Session, World, accept_failed, after, args_refused, authenticates,
  bad_crypto, bad_server, bench_refused, bench_running, benches, closes, config_refused,
  creates_tun, done, down_ended, ensure, from_option, from_outcome, from_ran, from_result, holds,
  is_macos, no_capacity, no_cleanup_here, not_authenticated, not_connected, note, on_table,
  open_failed, panicked, pump_failed, routes_refused, serves, signal_failed, Signal, not_installed,
  terminated, ctrl_c, signalled, stale_routes, stop, tun_failed, up_ended, waits_idle, ◌>>=◌, ◌>>◌,
}

unfoldable pub shutdown_signal : Signal → Result MainError (Unit {0})
shutdown_signal not_installed = err signal_failed
shutdown_signal terminated = ok tt
shutdown_signal (ctrl_c succeeds) = if succeeds then ok tt else err signal_failed

unfoldable pub shutdown_result : Result MainError (Unit {0}) → Result MainError (Unit {0})
shutdown_result (ok requested) = ok tt
shutdown_result (err error) = err error

-- The value of the `select!`.
unfoldable pub run_result : Ended → Result MainError (Unit {0})
unfolding shutdown_result shutdown_signal
run_result (up_ended succeeds) = if succeeds then ok tt else err pump_failed
run_result (down_ended succeeds) = if succeeds then ok tt else err pump_failed
run_result (signalled signal) = shutdown_result (shutdown_signal signal)

unfoldable pub tun_options : ClientConfig → TunOptions
tun_options config = record {
  name = config.tun_name;
  address = config.client_ip;
  prefix = config.tun_prefix;
  destination = some config.server_tun_ip;
  mtu = config.mtu;
  enable_linux_offload = false;
  tx_queue_len = none;
}

-- The check in front of the tunnel device.
unfoldable pub has_capacity : VpnTransportMode → Option ℕ → ℕ → Bool
has_capacity datagram max_datagram_size mtu = ensure_datagram_capacity max_datagram_size mtu
has_capacity stream max_datagram_size mtu = true

module _ {E C M T : Type 0} (w : World E C M T) (args : Args) where
  -- `config.route_all && !args.no_routes`, on macOS
  abbrev pub routes_wanted : ClientConfig → Bool
  routes_wanted config = config.route_all && not args.no_routes

  pub remove_stale : ClientConfig → Option Text → Main T (Unit {0})
  remove_stale config server =
      if is_macos w.os && (args.cleanup_routes || routes_wanted config)
      then on_table stale_routes (λ t. cleanup_stale w.route w.netstat t server)
      else done tt

  pub install_guard : ClientConfig → Option Text → Main T (Option RouteGuard)
  install_guard config server =
      if is_macos w.os && routes_wanted config
      then (do
        guard ← on_table routes_refused (λ t.
            install w.route t server (default_gateway (w.get_default t))
              (w.address_text config.server_tun_ip))
        done (some guard))
      else done none

  pub cleanup_guard : Option RouteGuard → Main T (Option RouteGuard)
  cleanup_guard none s = (ok none, s)
  cleanup_guard (some guard) s =
      let (guard', t) = cleanup w.route s.table guard in (ok (some guard'), record s { table = t })

  drop_on_error :
      {A : Type 0}
      → Option RouteGuard
      → Result MainError A × Session T
      → Result MainError A × Session T
  unfolding cleanup_guard
  drop_on_error guard (ok a, s) = (ok a, s)
  drop_on_error guard (err e, s) = (err e, (cleanup_guard guard s).1)

  -- A `?` of the call drops the guard.
  pub dropping : {A : Type 0} → Option RouteGuard → Main T A → Main T A
  unfolding drop_on_error
  dropping guard m s = drop_on_error guard (m s)

  open_streams : VpnTransportMode → Main T (Unit {0})
  open_streams datagram = done tt
  open_streams stream = do ensure w.opens_uni open_failed; ensure w.accepts_uni accept_failed

  pub serve : VpnTransportMode → Main T (Unit {0})
  unfolding open_streams
  serve mode = do open_streams mode; note (serves mode)

  -- From the routes to the end of `main`, where the guard is dropped once more.
  pub run_tunnel : ClientConfig → Option RouteGuard → Main T (Unit {0})
  unfolding dropping serve cleanup_guard run_result
  run_tunnel config guard = do
    dropping guard (serve config.vpn_transport)
    removed ← cleanup_guard guard
    note closes
    note waits_idle
    dropped ← cleanup_guard removed
    from_result (λ e. e) (run_result w.ended)

  -- What follows a probe and the bench.
  pub tunnel : ClientConfig → Option Text → C → Main T (Unit {0})
  unfolding has_capacity tun_options install_guard run_tunnel
  tunnel config server connection = do
    ensure (has_capacity config.vpn_transport (w.max_datagram_size connection) config.mtu)
        no_capacity
    note (creates_tun (tun_options config))
    ensure w.tun_created tun_failed
    guard ← install_guard config server
    run_tunnel config guard

  hold : Main T (Unit {0})
  hold = if ltb 0 args.probe_hold_secs then note holds else done tt

  pub probe : Main T (Unit {0})
  unfolding hold
  probe = do hold; note closes; note waits_idle

  pub bench : C → Plan → Main T (Unit {0})
  unfolding from_ran
  bench connection plan = do
    note (benches plan.runs)
    from_ran (run_bench_iterations w.reconnect w.reauthenticates w.run_bench connection plan.runs).0

  -- What the authenticated connection is for.
  use_connection : ClientConfig → Option Text → C → Plan → Option BenchDirection → Main T (Unit {0})
  unfolding bench probe tunnel
  use_connection config server connection plan (some direction) = bench connection plan
  use_connection config server connection plan none =
      if args.probe then probe else tunnel config server connection

  pub connect : Plan → Main T C
  unfolding from_outcome
  connect plan =
      from_outcome (connect_client w.connect_once plan.retries plan.retry_delay_ms).outcome

  -- From the token on.
  run_client : ClientConfig → Option Text → Main T (Unit {0})
  unfolding connect use_connection
  run_client config server = do
    token ← from_result config_refused (load_token w.token_file)
    plan ← from_result args_refused (plan args)
    ensure w.crypto bad_crypto
    connection ← connect plan
    mode ←
        from_result args_refused (
          auth_mode args plan.direction plan.target_mbps (w.max_datagram_size connection)
            config.mtu)
    note (authenticates mode)
    ensure (w.authenticates connection token mode) not_authenticated
    use_connection config server connection plan plan.direction

  -- Behind the removal of stale routes: only macOS has it, and it is all with `--cleanup-routes`.
  after_stale_routes : ClientConfig → Option Text → Main T (Unit {0})
  unfolding run_client
  after_stale_routes config server =
      if args.cleanup_routes
      then ensure (is_macos w.os) no_cleanup_here
      else run_client config server

  unfoldable pub main : Main T (Unit {0})
  unfolding remove_stale after_stale_routes
  main = do
    config ← from_result config_refused (load_toml w.from_str w.config_file)
    from_result config_refused (validate config)
    server ← from_option bad_server w.server_addr
    remove_stale config server
    after_stale_routes config server
