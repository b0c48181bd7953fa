-- ===== src/Core/Quic/Backlog.antt =====
-- crates/litevpn-core/src/quic.rs: `DatagramBacklog`. What the connection and the clock say in one
-- round of the waiting loop is an argument, and a run is the list of these observations.
pub mod Bound
use rust_vpn.Prelude.{
  ℕ, zero, suc, ◌+◌, ◌-◌, ◌*◌, ◌≤◌, ◌<◌, ◌≡◌, refl, ◌⊎◌, inl, inr, Bool, true, false, List, [], ◌∷◌,
  ◌++◌, Option, none, some, Result, ok, err, arith, ltb, leb, ◌==◌, if◌then◌else◌, min, ◌^◌,
  Bool-cases, ◌≢◌,
}

abbrev pub max_u64 : ℕ
max_u64 = 2 ^ 64 - 1

pub record DatagramBacklog : Type 0 where
  pub baseline_tx_datagrams : ℕ
  pub queued_datagrams : ℕ
  pub transmitted_datagrams : ℕ
  pub max_backlog_packets : ℕ

-- What ends a round's `select!`.
pub data Wake : Type 0 where
  slept reached_deadline closed : Wake

-- One round: `stats().frame_tx.datagram`, `Instant::now()`, and what the round's `select!` saw.
pub record Round : Type 0 where
  pub tx_datagrams : ℕ
  pub now : ℕ
  pub wake : Wake

-- The call's result: its value, the error for a closed connection, or still waiting when the
-- observations end.
pub data Waited : Type 0 where
  returned : Bool → Waited
  connection_closed : Waited
  waiting : Waited

-- `DatagramBacklog::new`, with the datagrams that the connection has sent so far.
unfoldable pub new : ℕ → ℕ → DatagramBacklog
new tx_datagrams max_backlog_packets = record {
  baseline_tx_datagrams = tx_datagrams;
  queued_datagrams = 0;
  transmitted_datagrams = 0;
  max_backlog_packets = max_backlog_packets;
}

-- `-` stops at 0, as `saturating_sub` does.
unfoldable pub estimated_backlog : DatagramBacklog → ℕ
estimated_backlog b = b.queued_datagrams - b.transmitted_datagrams

observe : DatagramBacklog → Round → DatagramBacklog
observe b r = record b { transmitted_datagrams = r.tx_datagrams - b.baseline_tx_datagrams }

-- `deadline.is_some_and(|deadline| Instant::now() >= deadline)`
is_past : Option ℕ → ℕ → Bool
is_past none now = false
is_past (some deadline) now = leb deadline now

-- What `select!` does: without a deadline there is no branch for it, and the loop goes on.
after_wake : Wake → Option ℕ → DatagramBacklog → DatagramBacklog × Waited → DatagramBacklog × Waited
after_wake slept deadline b rest = rest
after_wake closed deadline b rest = (b, connection_closed)
after_wake reached_deadline (some d) b rest = (b, returned false)
after_wake reached_deadline none b rest = rest

wait_loop : DatagramBacklog → Option ℕ → List Round → DatagramBacklog × Waited
wait_loop b deadline [] = (b, waiting)
wait_loop b deadline (r ∷ rs) =
    let b' = observe b r in
    let rest = wait_loop b' deadline rs in
    if leb (estimated_backlog b') b'.max_backlog_packets
    then (b', returned true)
    else if is_past deadline r.now
    then (b', returned false)
    else after_wake r.wake deadline b' rest

pub wait_until : DatagramBacklog → Option ℕ → List Round → DatagramBacklog × Waited
wait_until b deadline rounds =
    let loop = wait_loop b deadline rounds in
    if b.max_backlog_packets == 0
    then (b, returned true)
    else if leb (estimated_backlog b) b.max_backlog_packets
    then (b, returned true)
    else loop

-- `saturating_add(1)` on the count of queued datagrams.
count_queued : DatagramBacklog → DatagramBacklog
count_queued b = record b { queued_datagrams = min (b.queued_datagrams + 1) max_u64 }

-- `queued`: the result `true` stands for `Ok(())`.
unfoldable pub queued : DatagramBacklog → List Round → DatagramBacklog × Waited
unfolding count_queued wait_until wait_loop observe is_past after_wake estimated_backlog
queued b rounds = wait_until (count_queued b) none rounds

unfoldable pub queued_until : DatagramBacklog → ℕ → List Round → DatagramBacklog × Waited
unfolding count_queued wait_until wait_loop observe is_past after_wake estimated_backlog
queued_until b deadline rounds = wait_until (count_queued b) (some deadline) rounds
