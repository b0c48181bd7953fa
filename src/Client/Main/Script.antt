-- ===== src/Client/Main/Script.antt =====
-- crates/litevpn-client/src/main.rs: in which order `main` uses the connection and the tunnel device.
use rust_vpn.Prelude.{
  ◌≡◌, Bool, true, false, Option, none, some, ok, List, [], ◌∷◌, if◌then◌else◌, sym, subst, ltb,
}
use rust_vpn.Client.{Args, Plan, plan, auth_mode}
use rust_vpn.Client.Connect.{connected, connect_client}
use rust_vpn.Client.Main.{has_capacity, tun_options, run_tunnel, tunnel, hold, probe}
use rust_vpn.Client.Main.Steps.{
  Ends, result-Ends, ensure_then, note_then, quiet_then, install_guard_log, serve_then,
  cleanup_then,
}
use rust_vpn.Client.Routes.{RouteGuard}
use rust_vpn.Client.Session.{
  World, ◌>>=◌, ◌>>◌, note, done, Action, authenticates, benches, holds, creates_tun, serves,
  closes, waits_idle,
}
use rust_vpn.Core.Auth.{AuthMode, vpn, BenchDirection}
use rust_vpn.Core.Config.{load_toml}
use rust_vpn.Core.Config.Client.{ClientConfig, validate}
use rust_vpn.Core.Token.{load_token}
use rust_vpn.Text.{Text}

module _ {E C M T : Type 0} (w : World E C M T) (args : Args) where
  -- The connection over which `main` asks for a mode.
  pub record IsAsked (config : ClientConfig) (p : Plan) (token : Text) (connection : C)
      (mode : AuthMode) : Type 0 where
    pub read : load_toml w.from_str w.config_file ≡ ok config
    pub valid : validate config ≡ ok tt
    pub loaded : load_token w.token_file ≡ ok token
    pub planned : plan args ≡ ok p
    pub reached :
        (connect_client w.connect_once p.retries p.retry_delay_ms).outcome ≡ connected connection
    pub asked :
        auth_mode args p.direction p.target_mbps (w.max_datagram_size connection) config.mtu
        ≡ ok mode

  -- It was given the mode of the tunnel, for the token of its file.
  pub record IsAdmitted (config : ClientConfig) (p : Plan) (token : Text) (connection : C)
      : Type 0 where
    pub is_asked : IsAsked config p token connection vpn
    pub admitted : w.authenticates connection token vpn ≡ true
    pub no_bench : p.direction ≡ none

  -- All that `main` may have done when it ends, newest first.
  pub data Script : List Action → Type 0 where
    not_asked : Script []
    asked_only :
        {config : ClientConfig} {p : Plan} {token : Text} {connection : C} {mode : AuthMode}
        → IsAsked config p token connection mode
        → Script (authenticates mode ∷ [])
    benched :
        {config : ClientConfig} {p : Plan} {token : Text} {connection : C} {mode : AuthMode}
        {direction : BenchDirection}
        → IsAsked config p token connection mode
        → w.authenticates connection token mode ≡ true
        → p.direction ≡ some direction
        → Script (benches p.runs ∷ authenticates mode ∷ [])
    probed :
        {config : ClientConfig} {p : Plan} {token : Text} {connection : C}
        → IsAdmitted config p token connection
        → args.probe ≡ true
        → Script (waits_idle ∷ closes ∷ authenticates vpn ∷ [])
    probed_holding :
        {config : ClientConfig} {p : Plan} {token : Text} {connection : C}
        → IsAdmitted config p token connection
        → args.probe ≡ true
        → Script (waits_idle ∷ closes ∷ holds ∷ authenticates vpn ∷ [])
    tun_only :
        {config : ClientConfig} {p : Plan} {token : Text} {connection : C}
        → IsAdmitted config p token connection
        → has_capacity config.vpn_transport (w.max_datagram_size connection) config.mtu ≡ true
        → Script (creates_tun (tun_options config) ∷ authenticates vpn ∷ [])
    served :
        {config : ClientConfig} {p : Plan} {token : Text} {connection : C}
        → IsAdmitted config p token connection
        → has_capacity config.vpn_transport (w.max_datagram_size connection) config.mtu ≡ true
        → w.tun_created ≡ true
        → Script (
            waits_idle
            ∷ closes
            ∷ serves config.vpn_transport
            ∷ creates_tun (tun_options config)
            ∷ authenticates vpn
            ∷ [])

  run_tunnel-Script :
      (config : ClientConfig) (p : Plan) (token : Text) (connection : C)
      → IsAdmitted config p token connection
      → has_capacity config.vpn_transport (w.max_datagram_size connection) config.mtu ≡ true
      → w.tun_created ≡ true
      → (guard : Option RouteGuard)
      → Ends Script
          (creates_tun (tun_options config) ∷ authenticates vpn ∷ [])
          (run_tunnel w args config guard)
  unfolding run_tunnel
  run_tunnel-Script config p token connection a c t guard =
      serve_then w args Script guard _ _ _ (tun_only a c) (
        cleanup_then w args Script guard _ _ (λ removed. note_then Script _ _ _ (
          note_then Script _ _ _ (
            cleanup_then w args Script removed _ _
              (λ dropped. result-Ends Script _ _ _ (served a c t))))))

  pub tunnel-Script :
      (config : ClientConfig) (server : Option Text) (p : Plan) (token : Text) (connection : C)
      → IsAdmitted config p token connection
      → Ends Script (authenticates vpn ∷ []) (tunnel w args config server connection)
  unfolding tunnel
  tunnel-Script config server p token connection a =
      ensure_then Script _ _ _ _ (asked_only a.is_asked) (λ c. note_then Script _ _ _ (
        ensure_then Script _ _ _ _ (tun_only a c) (λ t.
          quiet_then Script _ _ _ (install_guard_log w args config server) (tun_only a c)
            (λ guard. run_tunnel-Script config p token connection a c t guard))))

  pub probe-Script :
      (config : ClientConfig) (p : Plan) (token : Text) (connection : C)
      → IsAdmitted config p token connection
      → args.probe ≡ true
      → Ends Script (authenticates vpn ∷ []) (probe w args)
  unfolding probe hold ◌>>=◌
  probe-Script config p token connection a b s e = held (ltb 0 args.probe_hold_secs)
    where
      held :
          (b : Bool)
          → Script
              (((if b then note holds else done tt) >>= λ u. note closes >> note waits_idle)
                s).1.log
      held true = subst (λ l. Script (waits_idle ∷ closes ∷ holds ∷ l)) (sym e) (probed_holding a b)
      held false = subst (λ l. Script (waits_idle ∷ closes ∷ l)) (sym e) (probed a b)
