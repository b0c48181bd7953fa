-- ===== src/Client/Routes/Guard.antt =====
-- crates/litevpn-client/src/macos_routes.rs: what the route table holds behind `RouteGuard`.
use rust_vpn.Prelude.{
  ◌≡◌, refl, subst, sym, ap, ◌∙◌, Bool, true, false, some, Result, ok, err, arith,
}
use rust_vpn.Client.Routes.{
  Answer, Command, add, delete, Kind, net, host, lower_half, upper_half, RouteError, RouteGuard,
  run_route_answer, delete_route_answer, run_route, cleanup_routes, install_routes, after_install,
  install, cleanup,
}
use rust_vpn.Text.{Text}

-- What `route` documents: behind an `add` that succeeds, or finds the route there, there is a route to
-- the destination; behind a `delete` that succeeds, or finds none, there is not; and neither changes
-- the routes to other destinations in the opposite direction.
pub record RouteLaws {T : Type 0} (route : T → Command → Answer × T) (has : T → Text → Bool)
    : Type 0 where
  pub added :
      (t : T) (k : Kind) (d g : Text)
      → run_route_answer (route t (add k d g)).0 ≡ ok tt
      → has (route t (add k d g)).1 d ≡ true
  pub add_keeps :
      (t : T) (k : Kind) (d g x : Text) → has t x ≡ true → has (route t (add k d g)).1 x ≡ true
  pub deleted :
      (t : T) (k : Kind) (d : Text)
      → delete_route_answer (route t (delete k d)).0 ≡ true
      → has (route t (delete k d)).1 d ≡ false
  pub delete_keeps :
      (t : T) (k : Kind) (d x : Text) → has t x ≡ false → has (route t (delete k d)).1 x ≡ false

module _ {T : Type 0} (route : T → Command → Answer × T) (has : T → Text → Bool)
    (laws : RouteLaws route has) where
  -- The table with all routes of the client, and with none of them.
  pub record IsInstalled (t : T) (server_ip : Text) : Type 0 where
    pub lower : has t lower_half ≡ true
    pub upper : has t upper_half ≡ true
    pub server : has t server_ip ≡ true

  pub record IsClean (t : T) (server_ip : Text) : Type 0 where
    pub lower : has t lower_half ≡ false
    pub upper : has t upper_half ≡ false
    pub server : has t server_ip ≡ false

  -- Where `cleanup_routes` reports success no route of the client is left.
  pub cleanup_routes-IsClean :
      (t : T) (server_ip : Text)
      → (cleanup_routes route t server_ip).0 ≡ true
      → IsClean (cleanup_routes route t server_ip).1 server_ip
  unfolding cleanup_routes
  cleanup_routes-IsClean t server_ip h = record {
    lower = laws.delete_keeps _ host server_ip lower_half (
        laws.delete_keeps _ net upper_half lower_half
          (laws.deleted t net lower_half (ground arith)));
    upper =
        laws.delete_keeps _ host server_ip upper_half
          (laws.deleted _ net upper_half (ground arith));
    server = laws.deleted _ host server_ip (ground arith);
  }

  run_route-ok :
      (t : T) (c : Command) (next : T → Result RouteError (Unit {0}) × T)
      → (run_route route t c next).0 ≡ ok tt
      → (run_route_answer (route t c).0 ≡ ok tt) × (run_route route t c next ≡ next (route t c).1)
  unfolding run_route
  run_route-ok t c next h = cases (run_route_answer (route t c).0) h
    where
      cases :
          (r : Result RouteError (Unit {0}))
          → (elim r as (λ x. Result RouteError (Unit {0}) × T) [
            | ok done ↦ next (route t c).1
            | err e ↦ (err e, (route t c).1)
          ]).0
            ≡ ok tt
          → (r ≡ ok tt)
            × ((elim r as (λ x. Result RouteError (Unit {0}) × T) [
              | ok done ↦ next (route t c).1
              | err e ↦ (err e, (route t c).1)
            ])
                ≡ next (route t c).1)
      cases (ok done) h = (refl, refl)
      cases (err e) h = cc

  install_routes-IsInstalled :
      (t : T) (server_ip gateway vpn_gateway : Text)
      → (install_routes route t server_ip gateway vpn_gateway).0 ≡ ok tt
      → IsInstalled (install_routes route t server_ip gateway vpn_gateway).1 server_ip
  unfolding install_routes
  install_routes-IsInstalled t server_ip gateway vpn_gateway h =
      let t1 : T = (route t (add host server_ip gateway)).1 in
      let t2 : T = (route t1 (add net lower_half vpn_gateway)).1 in
      let t3 : T = (route t2 (add net upper_half vpn_gateway)).1 in
      let done : T → Result RouteError (Unit {0}) × T = λ t3. (ok tt, t3) in
      let last : T → Result RouteError (Unit {0}) × T =
        λ t2. run_route route t2 (add net upper_half vpn_gateway) done in
      let rest : T → Result RouteError (Unit {0}) × T =
        λ t1. run_route route t1 (add net lower_half vpn_gateway) last in
      let first : Result RouteError (Unit {0}) × T → Result RouteError (Unit {0}) = λ r. r.0 in
      let (a, run1) = run_route-ok t (add host server_ip gateway) rest h in
      let (b, run2) =
        run_route-ok t1 (add net lower_half vpn_gateway) last (ap first (sym run1) ∙ h) in
      let (c, run3) =
        run_route-ok t2 (add net upper_half vpn_gateway) done
          (ap first (sym run2) ∙ ap first (sym run1) ∙ h) in
      subst (λ (u : T). IsInstalled u server_ip)
        (sym (ap (λ (r : Result RouteError (Unit {0}) × T). r.1) (run1 ∙ run2 ∙ run3)))
        (record {
          lower =
              laws.add_keeps t2 net upper_half vpn_gateway lower_half
                (laws.added t1 net lower_half vpn_gateway b);
          upper = laws.added t2 net upper_half vpn_gateway c;
          server = laws.add_keeps t2 net upper_half vpn_gateway server_ip (
              laws.add_keeps t1 net lower_half vpn_gateway server_ip
                (laws.added t host server_ip gateway a));
        })

  -- `cleanup_routes` for a program whose deletions do not fail
  cleanup_routes-ok :
      ((t : T) (k : Kind) (d : Text) → delete_route_answer (route t (delete k d)).0 ≡ true)
      → (t : T) (server_ip : Text) → (cleanup_routes route t server_ip).0 ≡ true
  unfolding cleanup_routes
  cleanup_routes-ok h t server_ip =
      rw (h t net lower_half, h _ net upper_half, h _ host server_ip) refl

  -- What `install` leaves: all routes and a guard that will remove them, or no route at all.
  pub data Leaves (server_ip : Text) : Result RouteError RouteGuard × T → Type 0 where
    leaves_all :
        (t : T) (gateway : Text)
        → IsInstalled t server_ip
        → Leaves server_ip
            (ok (record { server_ip = server_ip; gateway = gateway; installed = true }), t)
    leaves_none : (t : T) (e : RouteError) → IsClean t server_ip → Leaves server_ip (err e, t)

  after_install-Leaves :
      ((t : T) (k : Kind) (d : Text) → delete_route_answer (route t (delete k d)).0 ≡ true)
      → (server_ip gateway : Text) (r : Result RouteError (Unit {0}) × T)
      → (r.0 ≡ ok tt → IsInstalled r.1 server_ip)
      → Leaves server_ip (after_install route server_ip gateway r)
  unfolding after_install
  after_install-Leaves d server_ip gateway (ok done, t) h = leaves_all t gateway (h refl)
  after_install-Leaves d server_ip gateway (err e, t) h =
      leaves_none (cleanup_routes route t server_ip).1 e
        (cleanup_routes-IsClean t server_ip (cleanup_routes-ok d t server_ip))

  -- All or nothing: where the program's deletions do not fail, `install` behind a server with an IPv4
  -- address and a default gateway either has all three routes in the table, with a guard that will
  -- remove them, or fails and leaves none of them.
  pub install-Leaves :
      ((t : T) (k : Kind) (d : Text) → delete_route_answer (route t (delete k d)).0 ≡ true)
      → (t : T) (server_ip gateway vpn_gateway : Text)
      → Leaves server_ip (install route t (some server_ip) (ok gateway) vpn_gateway)
  unfolding install
  install-Leaves d t server_ip gateway vpn_gateway =
      after_install-Leaves d server_ip gateway
        (install_routes route (cleanup_routes route t server_ip).1 server_ip gateway vpn_gateway)
        (install_routes-IsInstalled (cleanup_routes route t server_ip).1 server_ip gateway
          vpn_gateway)

  -- Cleaning up behind an installed guard leaves none of its routes, and doing it again, as `drop` does,
  -- runs no command.
  pub cleanup_once :
      ((t : T) (k : Kind) (d : Text) → delete_route_answer (route t (delete k d)).0 ≡ true)
      → (t : T) (guard : RouteGuard) → guard.installed ≡ true
      → let r = cleanup route t guard in
        IsClean r.1 guard.server_ip × (cleanup route r.1 r.0 ≡ (r.0, r.1))
  unfolding cleanup
  cleanup_once d t guard h =
      rw h (cleanup_routes-IsClean t guard.server_ip (cleanup_routes-ok d t guard.server_ip), refl)
