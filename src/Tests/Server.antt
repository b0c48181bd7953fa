-- ===== src/Tests/Server.antt =====
-- Two clients of the server, one after the other.
use rust_vpn.Prelude.{ℕ, ◌≡◌, refl, true, none, some, arith}
use rust_vpn.Core.Auth.{vpn}
use rust_vpn.Core.Config.{datagram}
use rust_vpn.Server.{
  authenticating, ended, Server, start, after_auth, ensure_datagram_capacity, take_id, replace,
  close_previous, move, accept, authenticated, id_taken, replaced, previous_closed, pumps_end, Run,
  run_start, run_step,
}
use rust_vpn.Server.Active.{slot_id, active_client_lives, one_client_forwards}
use rust_vpn.Server.Trace.{owner, trace, slot_owner, slot_refines}
use rust_vpn.Server.Fates.{client, served_id}

-- The way of task `n` into the pumps.
abbrev asked : Server → ℕ → Server
asked s n = move (move s n authenticating) n (after_auth (some vpn) datagram (some 1400) 1364)

abbrev first : Server
first = close_previous (replace (take_id (asked start 0) 0) 0 1) 0 1 none

abbrev second : Server
second = close_previous (replace (take_id (asked first 1) 1) 1 2) 1 2 (some (client 1 0))

abbrev left : Server
left = move second 0 (ended (some 1))

first-Run : Run 5 first
unfolding after_auth ensure_datagram_capacity take_id replace close_previous
first-Run =
    run_step
      (run_step
        (run_step
          (run_step (run_step run_start (accept 0 refl))
            (authenticated 0 (some vpn) datagram (some 1400) 1364 refl))
          (id_taken 0 refl))
        (replaced 0 1 refl))
      (previous_closed 0 1 none refl)

second-Run : Run 10 second
unfolding after_auth ensure_datagram_capacity take_id replace close_previous
second-Run =
    run_step
      (run_step
        (run_step
          (run_step (run_step first-Run (accept 1 refl))
            (authenticated 1 (some vpn) datagram (some 1400) 1364 refl))
          (id_taken 1 refl))
        (replaced 1 2 refl))
      (previous_closed 1 2 (some (client 1 0)) refl)

left-Run : Run 11 left
unfolding after_auth ensure_datagram_capacity take_id replace close_previous
left-Run = run_step second-Run (pumps_end 0 1 refl)

active_client_lives_example : slot_id (left.tasks 1) ≡ some 2
active_client_lives_example =
    active_client_lives (client 2 1) left-Run (omega arith)
      (unfold take_id replace close_previous in refl)

abbrev newest : ℕ
newest = 1

one_client_forwards_example : (newest ≡ newest) × (second.active ≡ some (client 2 1))
one_client_forwards_example =
    one_client_forwards 1 1 2 2 second-Run (omega arith)
      (λ u r.
        unfold take_id replace close_previous after_auth ensure_datagram_capacity in ground arith)
      (unfold take_id replace close_previous served_id in refl)
      (unfold take_id replace close_previous served_id in refl)
      (unfold take_id replace close_previous in refl)
      (unfold take_id replace close_previous in refl)

first_closed : second.closed 0 ≡ true
unfolding take_id replace close_previous
first_closed = refl

slot_refines_example : slot_owner left.active ≡ owner (trace left-Run)
slot_refines_example = slot_refines left-Run (omega arith)

-- The second client owns the slot, also when the first one has left.
slot_owner_test : owner (trace left-Run) ≡ some 1
unfolding trace owner first-Run second-Run left-Run
slot_owner_test = refl
