-- ===== src/Client/Main/Clean.antt =====
-- crates/litevpn-client/src/main.rs: what `main` leaves in the route table, on every path through it.
use rust_vpn.Prelude.{
  ◌≡◌, Bool, true, false, Option, none, some, Result, ok, err, arith, List, if◌then◌else◌,
}
use rust_vpn.Client.{Args, plan, Plan}
use rust_vpn.Client.Main.{
  routes_wanted, remove_stale, tunnel, probe, use_connection, run_client, after_stale_routes, main,
}
use rust_vpn.Client.Session.{
  World, Session, after, ◌>>=◌, from_result, ensure, on_table, is_macos, stale_routes, Action,
  no_cleanup_here,
}
use rust_vpn.Client.Routes.{Kind, RouteError, delete_route_answer, delete}
use rust_vpn.Client.Routes.Guard.{RouteLaws, IsClean}
use rust_vpn.Client.Routes.Lookup.{cleanup_stale}
use rust_vpn.Client.Routes.Lookup.Stale.{IsListed, cleanup_stale-IsClean}
use rust_vpn.Core.Auth.{BenchDirection}
use rust_vpn.Core.Config.{load_toml}
use rust_vpn.Core.Config.Client.{ClientConfig, validate}
use rust_vpn.Text.{Text}
use rust_vpn.Client.Main.Keeps.{
  Keeps, chain-Keeps, from_result-Keeps, some_then, ok_then, ensure-Keeps, bench-Keeps, probe-Keeps,
  connect-Keeps,
}
use rust_vpn.Client.Main.Guarded.{Clean, install_guard-Clean}

module _ {E C M T : Type 0} (w : World E C M T) (args : Args) (has : T → Text → Bool)
    (laws : RouteLaws w.route has)
    (deletes : (t : T) (k : Kind) (d : Text)
      → delete_route_answer (w.route t (delete k d)).0 ≡ true)
    (server_ip : Text) where
  abbrev NoneLeft : T → Type 0
  NoneLeft = Clean w args has laws deletes server_ip

  module _ (config : ClientConfig) (os : is_macos w.os ≡ true)
      (wanted : routes_wanted w args config ≡ true) where
    tunnel-Clean :
        (connection : C) → Keeps NoneLeft (tunnel w args config (some server_ip) connection)
    unfolding tunnel
    tunnel-Clean connection = chain-Keeps NoneLeft _ _ (ensure-Keeps NoneLeft _ _) (λ u.
        chain-Keeps NoneLeft _ _ (λ s p. p)
          (λ v.
            chain-Keeps NoneLeft _ _ (ensure-Keeps NoneLeft _ _)
              (λ x. install_guard-Clean w args has laws deletes server_ip config os wanted)))

    probe_or_tunnel-Clean :
        (connection : C) (test : Bool)
        → Keeps NoneLeft
            (if test then probe w args else tunnel w args config (some server_ip) connection)
    probe_or_tunnel-Clean connection true s p = probe-Keeps w args NoneLeft s p
    probe_or_tunnel-Clean connection false s p = tunnel-Clean connection s p

    use_connection-Clean :
        (connection : C) (plan : Plan) (direction : Option BenchDirection)
        → Keeps NoneLeft (use_connection w args config (some server_ip) connection plan direction)
    unfolding use_connection
    use_connection-Clean connection plan (some direction) s p =
        bench-Keeps w args NoneLeft connection plan s p
    use_connection-Clean connection plan none s p = probe_or_tunnel-Clean connection args.probe s p

    run_client-Clean : Keeps NoneLeft (run_client w args config (some server_ip))
    unfolding run_client
    run_client-Clean = chain-Keeps NoneLeft _ _ (from_result-Keeps NoneLeft _ _) (λ token.
        chain-Keeps NoneLeft _ _ (from_result-Keeps NoneLeft _ _) (λ plan.
          chain-Keeps NoneLeft _ _ (ensure-Keeps NoneLeft _ _) (λ u.
            chain-Keeps NoneLeft _ _ (connect-Keeps w args NoneLeft plan) (λ connection.
              chain-Keeps NoneLeft _ _ (from_result-Keeps NoneLeft _ _) (λ mode.
                chain-Keeps NoneLeft _ _ (λ s p. p)
                  (λ v.
                    chain-Keeps NoneLeft _ _ (ensure-Keeps NoneLeft _ _)
                      (λ x. use_connection-Clean connection plan plan.direction)))))))

    after_stale_routes-Clean : Keeps NoneLeft (after_stale_routes w args config (some server_ip))
    unfolding after_stale_routes
    after_stale_routes-Clean = cases args.cleanup_routes
      where
        cases :
            (b : Bool)
            → Keeps NoneLeft (
                if b
                then ensure (is_macos w.os) no_cleanup_here
                else run_client w args config (some server_ip))
        cases true s p = ensure-Keeps NoneLeft _ _ s p
        cases false s p = run_client-Clean s p

    -- Behind the removal of stale routes.
    after_removal-Clean :
        (log : List Action) (r : Result RouteError (Unit {0}) × T)
        → r.0 ≡ ok tt
        → NoneLeft r.1
        → NoneLeft
            (after
              (from_result stale_routes r.0 (record { table = r.1; log = log }))
              (λ u. after_stale_routes w args config (some server_ip))).1.table
    after_removal-Clean log (ok u, t) e clean = after_stale_routes-Clean _ clean
    after_removal-Clean log (err e', t) e clean = clean

    removal_wanted :
        (server : Option Text)
        → remove_stale w args config server
          ≡ on_table stale_routes (λ t. cleanup_stale w.route w.netstat t server)
    unfolding remove_stale
    removal_wanted server = rw (os, wanted) (ground arith)

    removal-Clean :
        (s : Session T)
        → IsListed w.route has laws w.netstat s.table server_ip
        → (cleanup_stale w.route w.netstat s.table (some server_ip)).0 ≡ ok tt
        → NoneLeft
            ((remove_stale w args config (some server_ip) >>= λ u.
                after_stale_routes w args config (some server_ip))
              s).1.table
    unfolding ◌>>=◌
    removal-Clean s listed removed = rw (removal_wanted (some server_ip)) (
        after_removal-Clean s.log _ removed
          (cleanup_stale-IsClean w.route has laws w.netstat s.table server_ip listed removed))

    -- However `main` ends, and at whatever call it fails, the client on macOS leaves none of its routes
    -- in the table, its stale ones included: for a valid configuration that wants routes and a server
    -- with an IPv4 address, where `netstat` shows the client's routes, the removal of stale routes
    -- succeeds, and no later deletion fails.
    pub main_leaves_no_routes :
        (s : Session T)
        → load_toml w.from_str w.config_file ≡ ok config
        → validate config ≡ ok tt
        → w.server_addr ≡ some (some server_ip)
        → IsListed w.route has laws w.netstat s.table server_ip
        → (cleanup_stale w.route w.netstat s.table (some server_ip)).0 ≡ ok tt
        → IsClean w.route has laws (main w args s).1.table server_ip
    unfolding main
    main_leaves_no_routes s read valid address listed removed =
        ok_then NoneLeft _ _ config _ s read (
          ok_then NoneLeft _ _ tt _ s valid
            (some_then NoneLeft _ _ (some server_ip) _ s address (removal-Clean s listed removed)))
