-- ===== src/Client/Routes.antt =====
-- crates/litevpn-client/src/macos_routes.rs: the routes that `RouteGuard` installs and removes. The
-- `route` program is an argument: its answer to a command, and the table that the command leaves. An
-- address is its text. Client/Routes/Lookup reads what `netstat` and `route get` print.
pub mod Guard
pub mod Lookup
use rust_vpn.Prelude.{
  ◌≡◌, Bool, true, false, ◌&&◌, Option, none, some, Result, ok, err, if◌then◌else◌, not,
}
use rust_vpn.Text.{Text, chars}

pub data RouteError : Type 0 where
  needs_ipv4 not_run refused : RouteError
  netstat_not_run netstat_failed stale_not_removed : RouteError
  gateway_not_run gateway_failed gateway_malformed no_gateway : RouteError

-- The program did not start, it succeeded, or what its error says.
pub data Answer : Type 0 where
  not_started success file_exists not_in_table other_error : Answer

pub data Kind : Type 0 where
  net host : Kind

-- The arguments behind `-n`: `add` with a destination and a gateway, `delete` with a destination.
pub data Command : Type 0 where
  add : Kind → Text → Text → Command
  delete : Kind → Text → Command

abbrev pub lower_half : Text
lower_half = chars "0.0.0.0/1"

abbrev pub upper_half : Text
upper_half = chars "128.0.0.0/1"

unfoldable pub run_route_answer : Answer → Result RouteError (Unit {0})
run_route_answer not_started = err not_run
run_route_answer success = ok tt
run_route_answer file_exists = ok tt
run_route_answer not_in_table = err refused
run_route_answer other_error = err refused

unfoldable pub delete_route_answer : Answer → Bool
delete_route_answer success = true
delete_route_answer not_in_table = true
delete_route_answer not_started = false
delete_route_answer file_exists = false
delete_route_answer other_error = false

pub record RouteGuard : Type 0 where
  pub server_ip : Text
  pub gateway : Text
  pub installed : Bool

module _ {T : Type 0} (route : T → Command → Answer × T) where
  -- `run_route`, with what follows it on success
  unfoldable pub run_route :
      T → Command → (T → Result RouteError (Unit {0}) × T) → Result RouteError (Unit {0}) × T
  run_route t c next =
      let (answer, t') = route t c in
      let go = next t' in elim (run_route_answer answer) [ ok done ↦ go | err e ↦ (err e, t') ]

  unfoldable pub delete_route : T → Command → Bool × T
  delete_route t c = let (answer, t') = route t c in (delete_route_answer answer, t')

  unfoldable pub cleanup_routes : T → Text → Bool × T
  unfolding delete_route
  cleanup_routes t server_ip =
      let (lower, t1) = delete_route t (delete net lower_half) in
      let (upper, t2) = delete_route t1 (delete net upper_half) in
      let (own, t3) = delete_route t2 (delete host server_ip) in ((lower && upper) && own, t3)

  -- The commands of `install_result`.
  unfoldable pub install_routes : T → Text → Text → Text → Result RouteError (Unit {0}) × T
  unfolding run_route
  install_routes t server_ip gateway vpn_gateway = run_route t (add host server_ip gateway) (λ t1.
      run_route t1 (add net lower_half vpn_gateway)
        (λ t2. run_route t2 (add net upper_half vpn_gateway) (λ t3. (ok tt, t3))))

  after_install : Text → Text → Result RouteError (Unit {0}) × T → Result RouteError RouteGuard × T
  after_install server_ip gateway (err e, t) = (err e, (cleanup_routes t server_ip).1)
  after_install server_ip gateway (ok done, t) =
      (ok (record { server_ip = server_ip; gateway = gateway; installed = true }), t)

  -- `RouteGuard::install`: `none` is a server with an IPv6 address; then what `default_gateway` returns.
  unfoldable pub install :
      T → Option Text → Result RouteError Text → Text → Result RouteError RouteGuard × T
  unfolding after_install
  install t none gateway vpn_gateway = (err needs_ipv4, t)
  install t (some server_ip) (err e) vpn_gateway = (err e, t)
  install t (some server_ip) (ok gateway) vpn_gateway =
      after_install server_ip gateway
        (install_routes (cleanup_routes t server_ip).1 server_ip gateway vpn_gateway)

  -- `RouteGuard::cleanup`, which `drop` calls too
  unfoldable pub cleanup : T → RouteGuard → RouteGuard × T
  cleanup t guard =
      if not guard.installed
      then (guard, t)
      else (record guard { installed = false }, (cleanup_routes t guard.server_ip).1)
