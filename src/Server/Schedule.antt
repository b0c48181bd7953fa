-- ===== src/Server/Schedule.antt =====
-- crates/litevpn-server/src/main.rs: the loop of `main` and the tasks that it spawns, as a program. A
-- schedule says which task is polled next, and whether the call that it waits for has returned by then:
-- if it has, the task makes one atomic action, and if it has not, nothing happens. The bench and the
-- pumps are one call each, and need never return. What a connection's calls answer is the record
-- `Incoming`.
pub mod Steps
pub mod Turns
pub mod Trust
pub mod Served
use rust_vpn.Prelude.{
  ℕ, zero, suc, ◌+◌, ◌≡◌, refl, Bool, true, false, Option, none, some, Result, ok, err, List, [],
  ◌∷◌, ◌==◌, ◌&&◌, if◌then◌else◌,
}
use rust_vpn.Core.Auth.{AuthMode, AuthError, Io, server_authenticate}
use rust_vpn.Core.Config.Server.{ServerConfig}
use rust_vpn.Server.{
  Phase, absent, authenticating, benching, admitted, numbered, replacing, serving, ended, finished,
  Server, move, after_auth, take_id, replace, close_previous, clean_up,
}
use rust_vpn.Text.{Text}

pub record Incoming : Type 0 where
  -- `incoming.accept()?.await?`
  pub accepts : Bool
  -- the stream of the request, and whether the exchange ends within the ten seconds
  pub io : Io
  pub in_time : Bool
  pub max_datagram_size : Option ℕ

-- A poll of a task, and whether the call that it waits for is ready or still pending.
pub record Poll : Type 0 where
  pub task : ℕ
  pub ready : Bool

abbrev mode_of : Result AuthError AuthMode → Option AuthMode
mode_of (ok mode) = some mode
mode_of (err e) = none

-- `timeout(Duration::from_secs(10), server_authenticate(..)).await??` on a connection that was accepted
unfoldable pub authenticate : Text → Incoming → Option AuthMode
authenticate token c =
    if c.accepts && c.in_time then mode_of (server_authenticate c.io token).1 else none

module _ (config : ServerConfig) (token : Text) (incoming : ℕ → Incoming) where
  -- What task `n` does once the call that it waits for in the phase has returned. Whether the bench and
  -- the pumps have returned an error is no matter to the slot.
  pub turn_in : Server → ℕ → Phase → Server
  unfolding authenticate after_auth take_id replace close_previous clean_up
  turn_in s n absent = move s n authenticating
  turn_in s n authenticating = move s n (
      after_auth (authenticate token (incoming n)) config.vpn_transport
        (incoming n).max_datagram_size config.mtu)
  turn_in s n benching = move s n (ended none)
  turn_in s n admitted = take_id s n
  turn_in s n (numbered id) = replace s n id
  turn_in s n (replacing id previous) = close_previous s n id previous
  turn_in s n (serving id) = move s n (ended (some id))
  turn_in s n (ended client_id) = clean_up s n client_id
  turn_in s n finished = s

  unfoldable pub turn : Server → Poll → Server
  unfolding turn_in
  turn s p = if p.ready then turn_in s p.task (s.tasks p.task) else s

  -- The tasks in the order in which they are polled.
  unfoldable pub run_tasks : Server → List Poll → Server
  run_tasks s [] = s
  run_tasks s (p ∷ ps) = run_tasks (turn s p) ps

-- How often a task is polled when its call has returned.
unfoldable pub turns_of : ℕ → List Poll → ℕ
turns_of n [] = 0
turns_of n (p ∷ ps) = if p.ready && (n == p.task) then suc (turns_of n ps) else turns_of n ps
