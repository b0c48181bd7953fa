-- ===== src/Client/Main/Guarded.antt =====
-- crates/litevpn-client/src/main.rs: the route guard in `main`, from its installation to its drop.
use rust_vpn.Prelude.{◌≡◌, refl, Bool, true, false, Option, some, Result, ok, err, List, subst}
use rust_vpn.Client.{Args}
use rust_vpn.Client.Main.{
  routes_wanted, install_guard, cleanup_guard, drop_on_error, dropping, run_tunnel,
}
use rust_vpn.Client.Session.{
  MainError, World, Session, Main, after, ◌>>=◌, from_result, is_macos, done, routes_refused,
  Action,
}
use rust_vpn.Client.Routes.{
  Kind, RouteError, RouteGuard, delete_route_answer, delete, install, cleanup,
}
use rust_vpn.Client.Routes.Guard.{
  RouteLaws, IsClean, Leaves, leaves_all, leaves_none, install-Leaves, cleanup_once,
}
use rust_vpn.Core.Config.Client.{ClientConfig}
use rust_vpn.Text.{Text}
use rust_vpn.Client.Main.Keeps.{Keeps, chain-Keeps, from_result-Keeps}

module _ {E C M T : Type 0} (w : World E C M T) (args : Args) (has : T → Text → Bool)
    (laws : RouteLaws w.route has)
    (deletes : (t : T) (k : Kind) (d : Text)
      → delete_route_answer (w.route t (delete k d)).0 ≡ true)
    (server_ip : Text) where
  abbrev pub Clean : T → Type 0
  Clean t = IsClean w.route has laws t server_ip

  -- A guard that will remove the routes of this server.
  abbrev IsArmed : RouteGuard → Type 0
  IsArmed guard = (guard.installed ≡ true) × (guard.server_ip ≡ server_ip)

  cleanup_guard-Clean :
      (guard : RouteGuard) (s : Session T)
      → IsArmed guard
      → Clean (cleanup_guard w args (some guard) s).1.table
  unfolding cleanup_guard
  cleanup_guard-Clean guard s (installed, same) =
      subst (λ (ip : Text). IsClean w.route has laws (cleanup w.route s.table guard).1 ip) same
        (cleanup_once w.route has laws deletes s.table guard installed).0

  -- The second `cleanup` of a guard, as `drop` does it.
  disarmed-Keeps :
      (guard : RouteGuard)
      → guard.installed ≡ false
      → Keeps Clean (cleanup_guard w args (some guard))
  unfolding cleanup_guard cleanup
  disarmed-Keeps guard removed s p = rw removed p

  cleanup-disarms :
      (guard : RouteGuard) (t : T)
      → guard.installed ≡ true
      → (cleanup w.route t guard).0.installed ≡ false
  unfolding cleanup
  cleanup-disarms guard t installed = rw installed refl

  cleanup_then-Clean :
      {B : Type 0} (guard : RouteGuard) (f : Option RouteGuard → Main T B)
      → IsArmed guard
      → ((removed : RouteGuard) → removed.installed ≡ false → Keeps Clean (f (some removed)))
      → (s : Session T) → Clean ((cleanup_guard w args (some guard) >>= f) s).1.table
  unfolding ◌>>=◌ cleanup_guard
  cleanup_then-Clean guard f armed h s =
      h (cleanup w.route s.table guard).0 (cleanup-disarms guard s.table armed.0) _
        (cleanup_guard-Clean guard s armed)

  drop_on_error-Clean :
      {A B : Type 0} (guard : RouteGuard) (f : A → Main T B)
      → IsArmed guard
      → ((a : A) (s : Session T) → Clean (f a s).1.table)
      → (r : Result MainError A × Session T)
      → Clean (after (drop_on_error w args (some guard) r) f).1.table
  unfolding drop_on_error
  drop_on_error-Clean guard f armed h (ok a, s) = h a s
  drop_on_error-Clean guard f armed h (err e, s) = cleanup_guard-Clean guard s armed

  dropping-Clean :
      {A B : Type 0} (guard : RouteGuard) (m : Main T A) (f : A → Main T B)
      → IsArmed guard
      → ((a : A) (s : Session T) → Clean (f a s).1.table)
      → (s : Session T) → Clean ((dropping w args (some guard) m >>= f) s).1.table
  unfolding dropping ◌>>=◌
  dropping-Clean guard m f armed h s = drop_on_error-Clean guard f armed h (m s)

  run_tunnel-Clean :
      (config : ClientConfig) (guard : RouteGuard)
      → IsArmed guard
      → (s : Session T) → Clean (run_tunnel w args config (some guard) s).1.table
  unfolding run_tunnel
  run_tunnel-Clean config guard armed = dropping-Clean guard _ _ armed (λ u.
      cleanup_then-Clean guard _ armed (λ removed off.
        chain-Keeps Clean _ _ (λ s p. p)
          (λ v.
            chain-Keeps Clean _ _ (λ s p. p)
              (λ v'.
                chain-Keeps Clean _ _ (disarmed-Keeps removed off)
                  (λ d. from_result-Keeps Clean _ _)))))

  -- What `install` leaves, as `main` goes on from it.
  after_install-Clean :
      (config : ClientConfig) (log : List Action) (r : Result RouteError RouteGuard × T)
      → Leaves w.route has laws server_ip r
      → Clean
          (after
            (after
              (from_result routes_refused r.0 (record { table = r.1; log = log }))
              (λ guard. done (some guard)))
            (run_tunnel w args config)).1.table
  after_install-Clean config log r (leaves_all t gateway i) =
      run_tunnel-Clean config _ (refl, refl) _
  after_install-Clean config log r (leaves_none t e clean) = clean

  gateway-Clean :
      (config : ClientConfig) (s : Session T) (gateway : Result RouteError Text)
      (vpn_gateway : Text)
      → Clean s.table
      → let r = install w.route s.table (some server_ip) gateway vpn_gateway in
        Clean
          (after
            (after
              (from_result routes_refused r.0 (record s { table = r.1 }))
              (λ guard. done (some guard)))
            (run_tunnel w args config)).1.table
  gateway-Clean config s (ok gateway) vpn_gateway clean =
      after_install-Clean config s.log _
        (install-Leaves w.route has laws deletes s.table server_ip gateway vpn_gateway)
  gateway-Clean config s (err e) vpn_gateway clean = unfold install in clean

  pub install_guard-Clean :
      (config : ClientConfig)
      → is_macos w.os ≡ true
      → routes_wanted w args config ≡ true
      → Keeps Clean (install_guard w args config (some server_ip) >>= run_tunnel w args config)
  unfolding install_guard ◌>>=◌
  install_guard-Clean config os wanted s clean = rw (os, wanted) (gateway-Clean config s _ _ clean)
