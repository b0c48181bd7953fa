-- ===== src/Client/Routes/Lookup.antt =====
-- crates/litevpn-client/src/macos_routes.rs: the routes that an earlier run left behind, found in what
-- `netstat` prints, and the default gateway in what `route get` prints. `Ipv4Addr::from_str` is of
-- Rust's standard library: it takes an address in the one way that `to_string` writes it.
pub mod Stale
use rust_vpn.Prelude.{
  ℕ, ◌≡◌, refl, Bool, true, false, not, ◌&&◌, ◌||◌, Option, none, some, Result, ok, err, List, [],
  ◌∷◌, ◌++◌, arith, leb, ◌==◌, if◌then◌else◌, list_eq, list_eq_refl, ◌⊎◌, inl, inr, context,
  Bool-cases, ap, ◌∙◌, sym,
}
use rust_vpn.Client.Routes.{
  Answer, Command, lower_half, upper_half, RouteError, needs_ipv4, netstat_not_run, netstat_failed,
  stale_not_removed, gateway_not_run, gateway_failed, gateway_malformed, no_gateway, cleanup_routes,
}
use rust_vpn.Client.Routes.Guard.{RouteLaws, IsClean, cleanup_routes-IsClean}
use rust_vpn.Text.{Text, chars, strip_prefix, trim, is_empty}
use rust_vpn.Text.Number.{parse_u64}
use rust_vpn.Text.Lines.{lines}
use rust_vpn.Text.Words.{words}

-- A program that was run: it did not start, or its success and what `from_utf8_lossy` makes of its output.
pub data Output : Type 0 where
  unstarted : Output
  exited : Bool → Text → Output

unfoldable pub is_litevpn_route_destination : Text → Text → Bool
is_litevpn_route_destination destination server_ip =
    (list_eq destination (chars "0/1")
      || (list_eq destination (chars "0.0.0.0/1")
          || (list_eq destination (chars "128.0/1") || list_eq destination (chars "128.0.0.0/1"))))
    || (list_eq destination server_ip || list_eq destination (server_ip ++ chars "/32"))

-- The closure of `any`, on the words of the line.
unfoldable pub is_stale_line : Text → List Text → Bool
is_stale_line server_ip [] = false
is_stale_line server_ip (destination ∷ rest) = is_litevpn_route_destination destination server_ip

any_line : Text → List Text → Bool
any_line server_ip [] = false
any_line server_ip (line ∷ ls) = is_stale_line server_ip (words line) || any_line server_ip ls

unfoldable pub stale_routes_present : Output → Text → Result RouteError Bool
unfolding any_line is_stale_line is_litevpn_route_destination
stale_routes_present unstarted server_ip = err netstat_not_run
stale_routes_present (exited false stdout) server_ip = err netstat_failed
stale_routes_present (exited true stdout) server_ip = ok (any_line server_ip (lines stdout))

all_digits : Text → Bool
all_digits [] = true
all_digits (c ∷ s) = (leb b'0' c && leb c b'9') && all_digits s

abbrev is_byte : Option ℕ → Bool
is_byte none = false
is_byte (some n) = leb n 255

-- A decimal number of a byte, without a leading zero.
is_octet : Text → Bool
unfolding all_digits parse_u64
is_octet [] = false
is_octet (c ∷ s) =
    (all_digits (c ∷ s) && (is_empty s || not (c == b'0'))) && is_byte (parse_u64 (c ∷ s))

split_dots : Text → Text → List Text
split_dots part [] = part ∷ []
split_dots part (c ∷ s) = elim (c == b'.') [
  | true ↦ part ∷ split_dots [] s
  | false ↦ split_dots (part ++ c ∷ []) s
]

four_octets : List Text → Bool
unfolding is_octet
four_octets (a ∷ b ∷ c ∷ d ∷ []) = (is_octet a && is_octet b) && (is_octet c && is_octet d)
four_octets ps = false

-- `s.parse::<Ipv4Addr>()`
unfoldable pub parse_ipv4 : Text → Option Text
unfolding four_octets split_dots
parse_ipv4 s = if four_octets (split_dots [] s) then some s else none

-- The loop of `default_gateway`.
gateway_in : List Text → Result RouteError Text
unfolding parse_ipv4 trim strip_prefix
gateway_in [] = err no_gateway
gateway_in (line ∷ ls) = elim (strip_prefix (chars "gateway:") (trim line)) [
  | none ↦ gateway_in ls
  | some value ↦ context (parse_ipv4 (trim value)) gateway_malformed
]

unfoldable pub default_gateway : Output → Result RouteError Text
unfolding gateway_in
default_gateway unstarted = err gateway_not_run
default_gateway (exited false stdout) = err gateway_failed
default_gateway (exited true stdout) = gateway_in (lines stdout)

-- `if !cleanup_routes(server_ip) { bail!(..) }`
abbrev stale_result : Bool → Result RouteError (Unit {0})
stale_result removed = if not removed then err stale_not_removed else ok tt

module _ {T : Type 0} (route : T → Command → Answer × T) (netstat : T → Output) where
  after_stale : T → Text → Result RouteError Bool → Result RouteError (Unit {0}) × T
  after_stale t server_ip (err e) = (err e, t)
  after_stale t server_ip (ok false) = (ok tt, t)
  after_stale t server_ip (ok true) =
      let (removed, t') = cleanup_routes route t server_ip in (stale_result removed, t')

  -- `RouteGuard::cleanup_stale`: `none` is a server with an IPv6 address.
  unfoldable pub cleanup_stale : T → Option Text → Result RouteError (Unit {0}) × T
  unfolding after_stale
  cleanup_stale t none = (err needs_ipv4, t)
  cleanup_stale t (some server_ip) =
      after_stale t server_ip (stale_routes_present (netstat t) server_ip)
