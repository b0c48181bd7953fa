-- ===== src/Server.antt =====
-- crates/litevpn-server/src/main.rs: the tasks that `main` spawns, one for each connection, and the slot
-- of the active client that they share. A task is a state machine; each step of it is one atomic action
-- (one critical section of the lock, one `fetch_add`, one call on the connection), so a list of steps is
-- an interleaving of the tasks.
pub mod Ids
pub mod Fates
pub mod Active
pub mod Trace
pub mod Main
pub mod Pumps
pub mod Schedule
pub mod Summary
pub mod Bench
use rust_vpn.Prelude.{
  ℕ, ◌+◌, ◌%◌, ◌^◌, ◌≡◌, suc, zero, Bool, true, false, Option, none, some, ltb, ◌==◌, if◌then◌else◌,
  not,
}
use rust_vpn.Core.Auth.{AuthMode, vpn, bench}
use rust_vpn.Core.Config.{VpnTransportMode, datagram, stream}

-- A connection is known by the number of its task.
pub record ActiveClient : Type 0 where
  pub id : ℕ
  pub connection : ℕ

-- Where a task is in `handle_connection`, with the variables that are alive there.
pub data Phase : Type 0 where
  absent authenticating benching admitted : Phase
  -- behind `fetch_add`
  numbered : ℕ → Phase
  -- behind `active.replace`, with the previous client
  replacing : ℕ → Option ActiveClient → Phase
  -- in the pumps
  serving : ℕ → Phase
  -- behind `handle_connection`, with `client_id`
  ended : Option ℕ → Phase
  finished : Phase

pub record Server : Type 0 where
  pub active : Option ActiveClient
  pub next_client_id : ℕ
  pub tasks : ℕ → Phase
  -- the connections that were closed as replaced
  pub closed : ℕ → Bool

-- The state in front of the loop of `main`.
abbrev pub start : Server
start = record { active = none; next_client_id = 1; tasks = λ n. absent; closed = λ n. false }

abbrev pub set {ℓ} : {A : Type ℓ} → ℕ → A → (ℕ → A) → ℕ → A
set n a f k = if k == n then a else f k

-- `ensure_datagram_capacity`
unfoldable pub ensure_datagram_capacity : Option ℕ → ℕ → Bool
ensure_datagram_capacity none mtu = true
ensure_datagram_capacity (some max) mtu = not (ltb max mtu)

-- What follows the authentication: `none` is its error or its timeout.
unfoldable pub after_auth : Option AuthMode → VpnTransportMode → Option ℕ → ℕ → Phase
after_auth none vpn_transport max_datagram_size mtu = ended none
after_auth (some (bench direction duration_secs payload_bytes target_mbps)) _ _ _ = benching
after_auth (some vpn) stream max_datagram_size mtu = admitted
after_auth (some vpn) datagram max_datagram_size mtu =
    if ensure_datagram_capacity max_datagram_size mtu then admitted else ended none

-- `next_client_id.fetch_add(1)`
unfoldable pub take_id : Server → ℕ → Server
take_id s n = record s {
  next_client_id = (s.next_client_id + 1) % 2 ^ 64;
  tasks = set n (numbered s.next_client_id) s.tasks;
}

-- `active.replace(..)` under the lock
unfoldable pub replace : Server → ℕ → ℕ → Server
replace s n id = record s {
  active = some (record { id = id; connection = n });
  tasks = set n (replacing id s.active) s.tasks;
}

-- `previous.connection.close(..)`
unfoldable pub close_previous : Server → ℕ → ℕ → Option ActiveClient → Server
close_previous s n id none = record s { tasks = set n (serving id) s.tasks }
close_previous s n id (some previous) = record s {
  tasks = set n (serving id) s.tasks;
  closed = set previous.connection true s.closed;
}

-- `should_clear`
unfoldable pub should_clear : Option ActiveClient → ℕ → Bool
should_clear none id = false
should_clear (some client) id = client.id == id

-- What `main` does behind `handle_connection`, under the lock.
unfoldable pub clean_up : Server → ℕ → Option ℕ → Server
clean_up s n none = record s { tasks = set n finished s.tasks }
clean_up s n (some id) = record s {
  active = if should_clear s.active id then none else s.active;
  tasks = set n finished s.tasks;
}

abbrev pub move : Server → ℕ → Phase → Server
move s n phase = record s { tasks = set n phase s.tasks }

-- The steps of task `n`. How long the bench and the pumps run, and how they end, is open.
pub data Step (s : Server) : Server → Type 0 where
  accept : (n : ℕ) → s.tasks n ≡ absent → Step s (move s n authenticating)
  authenticated :
      (n : ℕ) (mode : Option AuthMode) (t : VpnTransportMode) (max_datagram_size : Option ℕ)
      (mtu : ℕ)
      → s.tasks n ≡ authenticating
      → Step s (move s n (after_auth mode t max_datagram_size mtu))
  bench_ends : (n : ℕ) → s.tasks n ≡ benching → Step s (move s n (ended none))
  id_taken : (n : ℕ) → s.tasks n ≡ admitted → Step s (take_id s n)
  replaced : (n id : ℕ) → s.tasks n ≡ numbered id → Step s (replace s n id)
  previous_closed :
      (n id : ℕ) (previous : Option ActiveClient)
      → s.tasks n ≡ replacing id previous
      → Step s (close_previous s n id previous)
  pumps_end : (n id : ℕ) → s.tasks n ≡ serving id → Step s (move s n (ended (some id)))
  cleaned_up :
      (n : ℕ) (client_id : Option ℕ) → s.tasks n ≡ ended client_id → Step s (clean_up s n client_id)

-- The states behind `k` steps.
pub data Run : ℕ → Server → Type 0 where
  run_start : Run 0 start
  run_step : {k : ℕ} {s t : Server} → Run k s → Step s t → Run (suc k) t
