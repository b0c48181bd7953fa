-- ===== src/Server/Schedule/Steps.antt =====
-- crates/litevpn-server/src/main.rs: a schedule makes steps of the tasks.
use rust_vpn.Prelude.{
  Bool, true, false, if◌then◌else◌, ℕ, suc, ◌+◌, ◌≤◌, ◌≡◌, refl, List, [], ◌∷◌, arith, length,
}
use rust_vpn.Core.Config.Server.{ServerConfig}
use rust_vpn.Server.{
  Phase, absent, authenticating, benching, admitted, numbered, replacing, serving, ended, finished,
  Server, accept, authenticated, bench_ends, id_taken, replaced, previous_closed, pumps_end,
  cleaned_up, Run, run_step,
}
use rust_vpn.Server.Schedule.{Incoming, Poll, turn_in, turn, run_tasks}
use rust_vpn.Text.{Text}

-- A state that some steps lead to, no more than this many.
abbrev pub Reached : ℕ → Server → Type 0
Reached k s = (j : ℕ) × (Run j s) × (j ≤ k)

module _ (config : ServerConfig) (token : Text) (incoming : ℕ → Incoming) where
  turn_in-Reached :
      (k : ℕ) (s : Server) (n : ℕ) (phase : Phase)
      → s.tasks n ≡ phase
      → Reached k s
      → Reached (suc k) (turn_in config token incoming s n phase)
  unfolding turn_in
  turn_in-Reached k s n absent e (j, r, l) = (suc j, run_step r (accept n e), omega arith)
  turn_in-Reached k s n authenticating e (j, r, l) =
      (suc j, run_step r (authenticated n _ _ _ _ e), omega arith)
  turn_in-Reached k s n benching e (j, r, l) = (suc j, run_step r (bench_ends n e), omega arith)
  turn_in-Reached k s n admitted e (j, r, l) = (suc j, run_step r (id_taken n e), omega arith)
  turn_in-Reached k s n (numbered id) e (j, r, l) =
      (suc j, run_step r (replaced n id e), omega arith)
  turn_in-Reached k s n (replacing id previous) e (j, r, l) =
      (suc j, run_step r (previous_closed n id previous e), omega arith)
  turn_in-Reached k s n (serving id) e (j, r, l) =
      (suc j, run_step r (pumps_end n id e), omega arith)
  turn_in-Reached k s n (ended client_id) e (j, r, l) =
      (suc j, run_step r (cleaned_up n client_id e), omega arith)
  turn_in-Reached k s n finished e (j, r, l) = (j, r, omega arith)

  turn-Reached :
      (k : ℕ) (s : Server) (p : Poll)
      → Reached k s
      → Reached (suc k) (turn config token incoming s p)
  unfolding turn
  turn-Reached k s p (j, r, l) = cases p.ready
    where
      cases :
          (ready : Bool)
          → Reached
              (suc k)
              (if ready then turn_in config token incoming s p.task (s.tasks p.task) else s)
      cases true = turn_in-Reached k s p.task (s.tasks p.task) refl (j, r, l)
      cases false = (j, r, omega arith)

  pub run_tasks-Reached :
      (k : ℕ) (s : Server) (ps : List Poll)
      → Reached k s
      → Reached (k + length ps) (run_tasks config token incoming s ps)
  unfolding run_tasks
  run_tasks-Reached k s [] (j, r, l) = (j, r, omega arith)
  run_tasks-Reached k s (p ∷ ps) h =
      let (j, r, l) =
        run_tasks-Reached (suc k) (turn config token incoming s p) ps (turn-Reached k s p h) in
      (j, r, omega arith)
