-- ===== src/Tests/Routes.antt =====
-- The routes at a concrete table.
use rust_vpn.Prelude.{
  ◌≡◌, refl, Bool, true, false, some, ok, err, [], ◌∷◌, subst, inl, inr, list_eq, list_eq_refl,
  if◌then◌else◌,
}
use rust_vpn.Client.Routes.{
  Answer, success, gateway_malformed, no_gateway, lower_half, cleanup_routes, Kind, Command, add,
  delete, RouteGuard, delete_route_answer, install,
}
use rust_vpn.Client.Routes.Guard.{RouteLaws, Leaves, IsClean, install-Leaves}
use rust_vpn.Client.Routes.Lookup.{
  Output, unstarted, exited, is_litevpn_route_destination, stale_routes_present, cleanup_stale,
  default_gateway,
}
use rust_vpn.Client.Routes.Lookup.Stale.{Shows, IsListed, cleanup_stale-IsClean}
use rust_vpn.Text.{Text, chars}
use rust_vpn.Text.Lines.{lines}
use rust_vpn.Text.Words.{words}

abbrev pub Table : Type 0
Table = Text → Bool

-- A `route` that always succeeds.
abbrev pub table_route : Table → Command → Answer × Table
table_route t (add k d g) = (success, λ x. if list_eq x d then true else t x)
table_route t (delete k d) = (success, λ x. if list_eq x d then false else t x)

kept : (b c other : Bool) → other ≡ c → (if b then c else other) ≡ c
kept true c other h = refl
kept false c other h = h

pub table_laws : RouteLaws table_route (λ t x. t x)
table_laws = record {
  added = λ t k d g h. rw (list_eq_refl d) refl;
  add_keeps = λ t k d g x h. kept (list_eq x d) true (t x) h;
  deleted = λ t k d h. rw (list_eq_refl d) refl;
  delete_keeps = λ t k d x h. kept (list_eq x d) false (t x) h;
}

pub deletes :
    (t : Table) (k : Kind) (d : Text) → delete_route_answer (table_route t (delete k d)).0 ≡ true
unfolding delete_route_answer
deletes t k d = refl

-- A table with a route that an earlier run left behind.
abbrev pub stale : Table
stale x = list_eq x (chars "0.0.0.0/1")

install-Leaves_example :
    Leaves table_route
      (λ t x. t x)
      table_laws
      (chars "161.33.36.181")
      (install table_route stale
        (some (chars "161.33.36.181"))
        (ok (chars "192.168.35.1"))
        (chars "10.66.0.1"))
install-Leaves_example =
    install-Leaves table_route (λ t x. t x) table_laws deletes stale (chars "161.33.36.181")
      (chars "192.168.35.1") (chars "10.66.0.1")

abbrev guard : RouteGuard
guard = record {
  server_ip = chars "161.33.36.181";
  gateway = chars "192.168.35.1";
  installed = true;
}

-- `netstat` on the table with a route of an earlier run.
abbrev pub stale_netstat : Table → Output
stale_netstat t = exited true (chars "Routes\n0/1 10.66.0.1\n")

shown : Shows (chars "0/1") lower_half (lines (chars "Routes\n0/1 10.66.0.1\n"))
unfolding lines words
shown = inr (inl (inl (chars "10.66.0.1" ∷ [], refl)))

pub stale-IsListed :
    IsListed table_route (λ t x. t x) table_laws stale_netstat stale (chars "161.33.36.181")
stale-IsListed = record {
  lower = λ stdout e h. subst (λ (out : Output). Listing out) e shown;
  upper = λ stdout e h. absurd (cc);
  server = λ stdout e h. absurd (cc);
}
  where
    Listing : Output → Type 0
    Listing unstarted = ⊥
    Listing (exited b stdout) = Shows (chars "0/1") lower_half (lines stdout)

pub stale_removed :
    (cleanup_stale table_route stale_netstat stale (some (chars "161.33.36.181"))).0 ≡ ok tt
unfolding cleanup_stale stale_routes_present lines words cleanup_routes delete_route_answer
stale_removed = refl

cleanup_stale-IsClean_example :
    IsClean table_route
      (λ t x. t x)
      table_laws
      (cleanup_stale table_route stale_netstat stale (some (chars "161.33.36.181"))).1
      (chars "161.33.36.181")
cleanup_stale-IsClean_example =
    cleanup_stale-IsClean table_route (λ t x. t x) table_laws stale_netstat stale
      (chars "161.33.36.181") stale-IsListed stale_removed

default_gateway_tests :
    (default_gateway
        (exited true (chars "   route to: default\n    gateway: 192.168.35.1\n  interface: en0\n"))
      ≡ ok (chars "192.168.35.1"))
    × (default_gateway (exited true (chars "gateway: link#4\n")) ≡ err gateway_malformed)
    × (default_gateway (exited true (chars "gateway: 192.168.035.1\n")) ≡ err gateway_malformed)
    × (default_gateway (exited true (chars "route to: default\n")) ≡ err no_gateway)
unfolding default_gateway lines
default_gateway_tests = (refl, refl, refl, refl)

-- The test of the source.
detects_litevpn_route_destinations :
    let found : Text → Bool = λ d. is_litevpn_route_destination d (chars "161.33.36.181") in
    (found (chars "128.0/1") ≡ true)
    × (found (chars "161.33.36.181/32") ≡ true)
    × (found (chars "default") ≡ false)
    × (found (chars "192.168.35.1") ≡ false)
unfolding is_litevpn_route_destination
detects_litevpn_route_destinations = (refl, refl, refl, refl)
