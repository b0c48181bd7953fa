-- ===== src/Client/Main/Ordered.antt =====
-- crates/litevpn-client/src/main.rs: `main` does one of the scripts.
use rust_vpn.Prelude.{◌≡◌, refl, true, Option, none, some, ok, [], ◌∷◌, if◌then◌else◌, sym, subst}
use rust_vpn.Client.{Args, Plan, auth_mode}
use rust_vpn.Client.Main.{
  tunnel, probe, bench, use_connection, connect, run_client, after_stale_routes, main,
}
use rust_vpn.Client.Main.Steps.{
  Ends, ran-Ends, ensure-Ends, if_Ends, result_then, option_then, ensure_then, note_then,
  outcome_then, quiet_then, remove_stale_log,
}
use rust_vpn.Client.Session.{World, Session, is_macos, no_cleanup_here, ensure, authenticates}
use rust_vpn.Core.Auth.{AuthMode, vpn, BenchDirection}
use rust_vpn.Core.Config.{load_toml}
use rust_vpn.Core.Config.Client.{ClientConfig, validate}
use rust_vpn.Text.{Text}
use rust_vpn.Client.Main.Script.{
  IsAsked, IsAdmitted, Script, not_asked, asked_only, benched, tunnel-Script, probe-Script,
}

module _ {E C M T : Type 0} (w : World E C M T) (args : Args) where
  bench-Script :
      (config : ClientConfig) (p : Plan) (token : Text) (connection : C) (mode : AuthMode)
      (direction : BenchDirection)
      → IsAsked w args config p token connection mode
      → w.authenticates connection token mode ≡ true
      → p.direction ≡ some direction
      → Ends (Script w args) (authenticates mode ∷ []) (bench w args connection p)
  unfolding bench
  bench-Script config p token connection mode direction a t d =
      note_then (Script w args) _ _ _ (ran-Ends (Script w args) _ _ (benched a t d))

  -- Without a bench the mode is that of the tunnel.
  asked-vpn :
      (config : ClientConfig) (p : Plan) (token : Text) (connection : C) (mode : AuthMode)
      → p.direction ≡ none
      → IsAsked w args config p token connection mode
      → vpn ≡ mode
  asked-vpn config p token connection mode d a =
      let same : auth_mode args none p.target_mbps (w.max_datagram_size connection) config.mtu
          ≡ ok mode =
        rw⁻¹ d a.asked in
      unfold auth_mode in cc

  admitted-Script :
      (config : ClientConfig) (server : Option Text) (p : Plan) (token : Text) (connection : C)
      → IsAdmitted w args config p token connection
      → Ends
          (Script w args)
          (authenticates vpn ∷ [])
          (if args.probe then probe w args else tunnel w args config server connection)
  admitted-Script config server p token connection a =
      if_Ends (Script w args) args.probe (probe w args) (tunnel w args config server connection)
        (authenticates vpn ∷ []) (probe-Script w args config p token connection a)
        (λ no. tunnel-Script w args config server p token connection a)

  use_connection-Script :
      (config : ClientConfig) (server : Option Text) (p : Plan) (token : Text) (connection : C)
      (mode : AuthMode) (direction : Option BenchDirection)
      → p.direction ≡ direction
      → IsAsked w args config p token connection mode
      → w.authenticates connection token mode ≡ true
      → Ends
          (Script w args)
          (authenticates mode ∷ [])
          (use_connection w args config server connection p direction)
  unfolding use_connection
  use_connection-Script config server p token connection mode (some direction) d a t =
      bench-Script config p token connection mode direction a t d
  use_connection-Script config server p token connection mode none d a t =
      let v : vpn ≡ mode = asked-vpn config p token connection mode d a in
      let admitted : IsAdmitted w args config p token connection = record {
        is_asked = subst (IsAsked w args config p token connection) (sym v) a;
        admitted = subst (λ m. w.authenticates connection token m ≡ true) (sym v) t;
        no_bench = d;
      } in
      subst
        (λ m.
          Ends (Script w args) (authenticates m ∷ [])
            (use_connection w args config server connection p none))
        v (unfold use_connection in admitted-Script config server p token connection admitted)

  run_client-Script :
      (config : ClientConfig) (server : Option Text)
      → load_toml w.from_str w.config_file ≡ ok config
      → validate config ≡ ok tt
      → Ends (Script w args) [] (run_client w args config server)
  unfolding run_client connect
  run_client-Script config server read valid =
      result_then (Script w args) _ _ _ _ not_asked (λ token loaded.
        result_then (Script w args) _ _ _ _ not_asked (λ p planned.
          ensure_then (Script w args) _ _ _ _ not_asked (λ crypto.
            outcome_then (Script w args) _ _ _ not_asked (λ connection reached.
              result_then (Script w args) _ _ _ _ not_asked (λ mode asked.
                let a : IsAsked w args config p token connection mode = record {
                  read = read;
                  valid = valid;
                  loaded = loaded;
                  planned = planned;
                  reached = reached;
                  asked = asked;
                } in
                note_then (Script w args) _ _ _ (
                  ensure_then (Script w args) _ _ _ _ (asked_only a) (λ t.
                    use_connection-Script config server p token connection mode p.direction refl a
                      t)))))))

  after_stale_routes-Script :
      (config : ClientConfig) (server : Option Text)
      → load_toml w.from_str w.config_file ≡ ok config
      → validate config ≡ ok tt
      → Ends (Script w args) [] (after_stale_routes w args config server)
  unfolding after_stale_routes
  after_stale_routes-Script config server read valid =
      if_Ends (Script w args) args.cleanup_routes (ensure (is_macos w.os) no_cleanup_here)
        (run_client w args config server) []
        (λ b. ensure-Ends (Script w args) (is_macos w.os) no_cleanup_here [] not_asked)
        (λ b. run_client-Script config server read valid)

  -- From an empty log, and however it ends, `main` has done one of these, in this order: nothing; asked
  -- for a mode; asked for a bench that was granted, and run it; asked for the tunnel, been admitted, and
  -- made a probe and closed; or created the device, where datagrams hold its packets, and, with the
  -- device there, run the pumps, closed the connection and waited for its end. It asks only with a
  -- valid configuration, the token of its file and arguments that pass the checks, over a connection
  -- that it has reached.
  pub main-Script : (s : Session T) → s.log ≡ [] → Script w args (main w args s).1.log
  unfolding main
  main-Script = result_then (Script w args) _ _ _ _ not_asked (λ config read.
      result_then (Script w args) _ _ _ _ not_asked (λ u valid.
        option_then (Script w args) _ _ _ _ not_asked (λ server parsed.
          quiet_then (Script w args) _ _ _ (remove_stale_log w args config server) not_asked
            (λ v. after_stale_routes-Script config server read valid))))
