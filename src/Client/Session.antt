-- ===== src/Client/Session.antt =====
-- crates/litevpn-client/src/main.rs: what `main` works on. What the calls outside of the program answer
-- is the record `World`; the route table is the state, and the log has what `main` does with the
-- connection and the tunnel device, newest first.
use rust_vpn.Prelude.{ℕ, Bool, true, false, Option, none, some, Result, ok, err, List, ◌∷◌}
use rust_vpn.Bench.{BenchError, Ran, ran, failed, running}
use rust_vpn.Client.{ArgsError}
use rust_vpn.Client.Connect.{Outcome, connected, given_up, missing}
use rust_vpn.Client.Routes.{Answer, Command, RouteError}
use rust_vpn.Client.Routes.Lookup.{Output}
use rust_vpn.Core.Auth.{AuthMode}
use rust_vpn.Core.Config.{ConfigError, Ipv4Addr, VpnTransportMode}
use rust_vpn.Core.Config.Client.{ClientConfig}
use rust_vpn.Core.Tun.{TargetOs, linux, macos, bsd, other_os, TunOptions}
use rust_vpn.Text.{Text}

-- One constructor for each `?` and `bail!` of `main`; `panicked` is the `expect` of `connect_client`,
-- and `bench_running` where the rounds of a bench end before it does.
pub data MainError : Type 0 where
  bad_server no_cleanup_here bad_crypto : MainError
  config_refused : ConfigError → MainError
  stale_routes routes_refused : RouteError → MainError
  args_refused : ArgsError → MainError
  not_connected panicked not_authenticated : MainError
  bench_refused : BenchError → MainError
  bench_running : MainError
  no_capacity tun_failed open_failed accept_failed pump_failed signal_failed : MainError

-- What `shutdown_signal` comes to: its handler for SIGTERM is refused, Ctrl+C or its failure, SIGTERM.
pub data Signal : Type 0 where
  not_installed terminated : Signal
  ctrl_c : Bool → Signal

-- The first branch of the `select!` that is ready, and whether it has succeeded.
pub data Ended : Type 0 where
  up_ended down_ended : Bool → Ended
  signalled : Signal → Ended

-- What `main` does with the connection and the device.
pub data Action : Type 0 where
  authenticates : AuthMode → Action
  benches : ℕ → Action
  holds : Action
  creates_tun : TunOptions → Action
  serves : VpnTransportMode → Action
  closes waits_idle : Action

pub record World (E C M T : Type 0) : Type 0 where
  pub os : TargetOs
  -- the file of `args.config`, and `toml::from_str`
  pub config_file : Option Text
  pub from_str : Text → Option ClientConfig
  -- `config.server.parse()`: an address is IPv4, with its text, or IPv6
  pub server_addr : Option (Option Text)
  pub token_file : Option Text
  -- `crypto::client_config`
  pub crypto : Bool
  pub connect_once : ℕ → Result E C
  pub max_datagram_size : C → Option ℕ
  pub authenticates : C → Text → AuthMode → Bool
  -- what `connect_client`, the authentication and `run_bench` answer in the runs of a bench
  pub reconnect : ℕ → Outcome E C
  pub reauthenticates : ℕ → C → Bool
  pub run_bench : ℕ → C → Ran M
  pub tun_created : Bool
  pub route : T → Command → Answer × T
  pub netstat : T → Output
  pub get_default : T → Output
  pub address_text : Ipv4Addr → Text
  pub opens_uni : Bool
  pub accepts_uni : Bool
  pub ended : Ended

pub record Session (T : Type 0) : Type 0 where
  pub table : T
  pub log : List Action

abbrev pub Main : Type 0 → Type 0 → Type 0
Main T A = Session T → Result MainError A × Session T

abbrev pub after :
    {T A B : Type 0}
    → Result MainError A × Session T
    → (A → Main T B)
    → Result MainError B × Session T
after (ok a, s) f = f a s
after (err e, s) f = (err e, s)

infixl 5 ◌>>=◌ ◌>>◌
unfoldable pub ◌>>=◌ : {T A B : Type 0} → Main T A → (A → Main T B) → Main T B
(m >>= f) s = after (m s) f

abbrev pub ◌>>◌ : {T B : Type 0} → Main T (Unit {0}) → Main T B → Main T B
m >> k = m >>= λ _. k

abbrev pub done : {T A : Type 0} → A → Main T A
done a s = (ok a, s)

abbrev pub stop : {T A : Type 0} → MainError → Main T A
stop e s = (err e, s)

-- `result?` with the error's place in `main`.
abbrev pub from_result : {T X A : Type 0} → (X → MainError) → Result X A → Main T A
from_result place (ok a) = done a
from_result place (err e) = stop (place e)

abbrev pub from_option : {T A : Type 0} → MainError → Option A → Main T A
from_option e none = stop e
from_option e (some a) = done a

abbrev pub ensure : {T : Type 0} → Bool → MainError → Main T (Unit {0})
ensure true e = done tt
ensure false e = stop e

abbrev pub note : {T : Type 0} → Action → Main T (Unit {0})
note action s = (ok tt, record s { log = action ∷ s.log })

-- A call that works on the route table.
abbrev pub on_table :
    {T A : Type 0} → (RouteError → MainError) → (T → Result RouteError A × T) → Main T A
on_table place f s = let (r, t) = f s.table in from_result place r (record s { table = t })

abbrev pub is_macos : TargetOs → Bool
is_macos macos = true
is_macos linux = false
is_macos bsd = false
is_macos other_os = false

unfoldable pub from_outcome : {T E C : Type 0} → Outcome E C → Main T C
from_outcome (connected c) = done c
from_outcome (given_up e) = stop not_connected
from_outcome missing = stop panicked

unfoldable pub from_ran : {T A : Type 0} → Ran A → Main T (Unit {0})
from_ran (ran a) = done tt
from_ran (failed e) = stop (bench_refused e)
from_ran running = stop bench_running
