-- ===== src/Core/Quic/Backlog/Bound.antt =====
-- crates/litevpn-core/src/quic.rs: what a wait for the datagram backlog guarantees, and when it ends.
use rust_vpn.Prelude.{
  ℕ, ◌+◌, ◌-◌, ◌≤◌, ◌≡◌, ◌≢◌, ◌⊎◌, true, false, List, [], ◌∷◌, ◌++◌, Option, none, some, arith, min,
}
use rust_vpn.Core.Quic.Backlog.{
  max_u64, DatagramBacklog, Round, Waited, returned, waiting, estimated_backlog, observe, is_past,
  after_wake, wait_loop, wait_until, count_queued, queued, queued_until,
}

-- What a wait leaves alone, and what its outcome says.
pub record IsWaited (b b' : DatagramBacklog) (deadline : Option ℕ) (w : Waited) : Type 0 where
  pub same_baseline : b'.baseline_tx_datagrams ≡ b.baseline_tx_datagrams
  pub same_queued : b'.queued_datagrams ≡ b.queued_datagrams
  pub same_max : b'.max_backlog_packets ≡ b.max_backlog_packets
  pub below_max :
      w ≡ returned true
      → (b.max_backlog_packets ≡ 0)
        ⊎ (b'.queued_datagrams ≤ b'.transmitted_datagrams + b.max_backlog_packets)
  pub deadline_only : w ≡ returned false → deadline ≢ none

wait_loop-IsWaited :
    (b : DatagramBacklog) (deadline : Option ℕ) (rs : List Round)
    → let r = wait_loop b deadline rs in IsWaited b r.0 deadline r.1
unfolding wait_loop observe is_past after_wake estimated_backlog
wait_loop-IsWaited b deadline [] = ground arith
wait_loop-IsWaited b none (r ∷ rs) = ground (arith, wait_loop-IsWaited (observe b r) none rs)
wait_loop-IsWaited b (some d) (r ∷ rs) =
    ground (arith, wait_loop-IsWaited (observe b r) (some d) rs)

wait_until-IsWaited :
    (b : DatagramBacklog) (deadline : Option ℕ) (rs : List Round)
    → let r = wait_until b deadline rs in IsWaited b r.0 deadline r.1
unfolding wait_until estimated_backlog
wait_until-IsWaited b deadline rs = ground (arith, wait_loop-IsWaited b deadline rs)

-- Where the reported count makes the backlog fit, the wait ends at that round at the latest.
wait_loop_ends :
    (b : DatagramBacklog) (before rest : List Round) (r : Round)
    → b.queued_datagrams - (r.tx_datagrams - b.baseline_tx_datagrams) ≤ b.max_backlog_packets
    → (wait_loop b none (before ++ r ∷ rest)).1 ≢ waiting
unfolding wait_loop observe is_past after_wake estimated_backlog
wait_loop_ends b [] rest r h = ground arith
wait_loop_ends b (s ∷ before) rest r h = ground (arith, wait_loop_ends (observe b s) before rest r)

-- The datagrams that are queued and not known to be sent are within the configured number.
abbrev pub IsBounded : DatagramBacklog → Type 0
IsBounded b =
    (b.max_backlog_packets ≡ 0)
    ⊎ (b.queued_datagrams ≤ b.transmitted_datagrams + b.max_backlog_packets)

-- What one call of `queued` does to the counts.
pub record IsQueued (b b' : DatagramBacklog) (w : Waited) : Type 0 where
  pub same_max : b'.max_backlog_packets ≡ b.max_backlog_packets
  pub same_baseline : b'.baseline_tx_datagrams ≡ b.baseline_tx_datagrams
  pub counted : b'.queued_datagrams ≡ min (b.queued_datagrams + 1) max_u64
  pub bounded : w ≡ returned true → IsBounded b'
  pub no_timeout : w ≢ returned false

-- A call of `queued` counts one datagram more. It comes back only when the datagrams that are not known
-- to be sent are within the configured number again (or the number is 0), and it never times out.
pub queued-IsQueued :
    (b : DatagramBacklog) (rs : List Round) → let r = queued b rs in IsQueued b r.0 r.1
unfolding queued count_queued
queued-IsQueued b rs = ground (arith, wait_until-IsWaited (count_queued b) none rs)

-- A call of `queued` does not wait forever: once the connection reports enough datagrams sent, it is
-- over, whatever was observed before and whatever comes after.
pub queued_ends :
    (b : DatagramBacklog) (before rest : List Round) (r : Round)
    → b.queued_datagrams + 1 ≤ (r.tx_datagrams - b.baseline_tx_datagrams) + b.max_backlog_packets
    → (queued b (before ++ r ∷ rest)).1 ≢ waiting
unfolding queued wait_until count_queued
queued_ends b before rest r h =
    ground (arith, wait_loop_ends (count_queued b) before rest r (omega arith))

wait_loop_deadline :
    (b : DatagramBacklog) (deadline : ℕ) (before rest : List Round) (r : Round)
    → deadline ≤ r.now
    → (wait_loop b (some deadline) (before ++ r ∷ rest)).1 ≢ waiting
unfolding wait_loop observe is_past after_wake estimated_backlog
wait_loop_deadline b d [] rest r h = ground arith
wait_loop_deadline b d (s ∷ before) rest r h =
    ground (arith, wait_loop_deadline (observe b s) d before rest r)

queued_until_over :
    (b : DatagramBacklog) (deadline : ℕ) (before rest : List Round) (r : Round)
    → deadline ≤ r.now
    → (queued_until b deadline (before ++ r ∷ rest)).1 ≢ waiting
unfolding queued_until wait_until
queued_until_over b d before rest r h =
    ground (arith, wait_loop_deadline (count_queued b) d before rest r)

queued_until-IsBounded :
    (b : DatagramBacklog) (deadline : ℕ) (rs : List Round)
    → (queued_until b deadline rs).1 ≡ returned true
    → IsBounded (queued_until b deadline rs).0
unfolding queued_until count_queued
queued_until-IsBounded b d rs h = ground (arith, wait_until-IsWaited (count_queued b) (some d) rs)

-- A call of `queued_until` is over when the clock has reached the deadline. It reports success only
-- within the configured number.
pub queued_until_deadline :
    (b : DatagramBacklog) (deadline : ℕ) (before rest : List Round) (r : Round)
    → deadline ≤ r.now
    → let q = queued_until b deadline (before ++ r ∷ rest) in
      (q.1 ≢ waiting) × (q.1 ≡ returned true → IsBounded q.0)
queued_until_deadline b d before rest r h =
    (queued_until_over b d before rest r h, queued_until-IsBounded b d (before ++ r ∷ rest))
