-- ===== src/Tests/Pacing.antt =====
-- The backlog and the pacer at concrete inputs.
use rust_vpn.Prelude.{
  ℕ, ◌+◌, ◌*◌, ◌/◌, ◌-◌, ◌≤◌, ◌≡◌, ◌≢◌, refl, true, [], ◌∷◌, some, arith, ltb, leb, min, max, List,
  Option, none, All, false, replicate, All-replicate,
}
use native.Mathlib.Nat.{mul-le-mul_right}
use rust_vpn.Core.Quic.Backlog.{
  DatagramBacklog, Round, slept, waiting, returned, queued, queued_until,
}
use rust_vpn.Core.Quic.Backlog.Bound.{
  IsQueued, IsBounded, queued-IsQueued, queued_ends, queued_until_deadline,
}
use rust_vpn.Core.Quic.Pacer.{Float, Observed, new, target_bytes_per_sec}
use rust_vpn.Core.Quic.Pacer.Idle.{AllowanceLaws, total_bytes, sleeps, pause_is_credit}
use rust_vpn.Core.Quic.Pacer.Rate.{FloatLaws}
use rust_vpn.Core.Quic.Pacer.Run.{Sent, run, rate_bounds}

abbrev pub full : DatagramBacklog
full = record {
  baseline_tx_datagrams = 10;
  queued_datagrams = 64;
  transmitted_datagrams = 0;
  max_backlog_packets = 64;
}

abbrev pub idle_round : Round
idle_round = record { tx_datagrams = 10; now = 5; wake = slept }

abbrev pub sent_round : Round
sent_round = record { tx_datagrams = 30; now = 7; wake = slept }

queued-IsQueued_example :
    let r = queued full (idle_round ∷ sent_round ∷ []) in IsQueued full r.0 r.1
queued-IsQueued_example = queued-IsQueued full (idle_round ∷ sent_round ∷ [])

queued_ends_example : (queued full (idle_round ∷ sent_round ∷ [])).1 ≢ waiting
queued_ends_example = queued_ends full (idle_round ∷ []) [] sent_round (omega arith)

queued_until_deadline_example :
    let q = queued_until full 7 (idle_round ∷ sent_round ∷ []) in
    (q.1 ≢ waiting) × (q.1 ≡ returned true → IsBounded q.0)
queued_until_deadline_example =
    queued_until_deadline full 7 (idle_round ∷ []) [] sent_round (omega arith)

-- Rates as whole millionths.
abbrev pub unit : ℕ
unit = 1_000_000

abbrev pub fixed : Float ℕ
fixed = record {
  of_u64 = λ n. n * unit;
  literal = λ n d. n * unit / d;
  add = λ a b. a + b;
  sub = λ a b. a - b;
  mul = λ a b. a * b / unit;
  div = λ a b. a * unit / b;
  larger = max;
  smaller = min;
  abs = λ a. a;
  gt = λ a b. ltb b a;
  le = leb;
  ceil_u64 = λ a. (a + 999_999) / unit;
  epsilon = 1;
  secs_of_nanos = λ n. n / 1000;
  nanos_of_secs = λ a. a * 1000;
}

fixed_laws : FloatLaws fixed (λ a b. a ≤ b)
fixed_laws = record {
  le_refl = λ a. omega arith;
  le_trans = λ a b c p q. omega arith;
  le-larger = λ a b. omega arith;
  larger-le = λ a b c p q. omega arith;
  smaller-le = λ a b. omega arith;
  le-smaller = λ a b c p q. omega arith;
  halved = λ a. omega arith;
  lessened = λ a. omega arith;
  enlarged = λ a. omega arith;
}

abbrev pub lossy : Observed
lossy = record {
  adjust_elapsed_at = 300_000_000;
  adjusted_at = 300_000_001;
  epoch_reset_at = 300_000_002;
  wait_elapsed_at = 300_000_003;
  before_sleep = 300_000_004;
  lost_packets = 5;
  congestion_events = 1;
}

target_of_8 : target_bytes_per_sec fixed 8 ≡ some 1_000_000_000_000
unfolding target_bytes_per_sec
target_of_8 = refl

rate_bounds_example :
    (rate : ℕ) × ((run fixed
        (new fixed 0 8 1300 true)
        ((1300, true, lossy) ∷ [])).current_bytes_per_sec
      ≡ some rate)
    × (fixed.mul 1_000_000_000_000 (fixed.literal 50 100) ≤ rate)
    × (rate ≤ 1_000_000_000_000)
rate_bounds_example =
    rate_bounds fixed (λ a b. a ≤ b) fixed_laws 0 8 1300 true ((1300, true, lossy) ∷ [])
      1_000_000_000_000 target_of_8

quotients : (a b : ℕ) → a ≤ b → a / 1000 ≤ b / 1000
quotients a b h = omega arith

allowed_later :
    (a b bytes rate burst : ℕ)
    → a ≤ b
    → leb bytes (a / 1000 * rate / unit + burst) ≡ true
    → leb bytes (b / 1000 * rate / unit + burst) ≡ true
allowed_later a b bytes rate burst h e = ground (arith, grows)
  where
    grows : a / 1000 * rate / unit ≤ b / 1000 * rate / unit
    grows = omega (arith, mul-le-mul_right rate (quotients a b h))

fixed_allows : AllowanceLaws fixed
fixed_allows = record {
  fewer = λ m n allowed h e. ground arith;
  later = λ a b bytes rate burst p h e. allowed_later a b bytes rate burst h e;
}

-- A packet of 1300 bytes, a second after the pacer was made for 8 Mbps, and a hundred of them.
abbrev late_packet : Sent
late_packet = (1300, false, record lossy { wait_elapsed_at = 1_000_000_000 })

abbrev after_pause : List Sent
after_pause = replicate 100 late_packet

abbrev Late : Sent → Type 0
Late c = 1_000_000_000 ≤ c.2.wait_elapsed_at - (new fixed 0 8 1300 false).epoch_started

late : Late late_packet
unfolding new
late = omega arith

pause_is_credit_example :
    All (λ (s : Option ℕ). s ≡ none) (sleeps fixed (new fixed 0 8 1300 false) after_pause)
pause_is_credit_example =
    pause_is_credit fixed fixed_allows 1_000_000_000_000 refl (new fixed 0 8 1300 false) after_pause
      1_000_000_000 1_000_000 (unfold new in refl) (unfold new in target_of_8)
      (unfold new total_bytes in omega arith) (unfold new in refl)
      (All-replicate Late 100 late_packet late)
