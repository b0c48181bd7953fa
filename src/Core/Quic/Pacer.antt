-- ===== src/Core/Quic/Pacer.antt =====
-- crates/litevpn-core/src/quic.rs: `EgressPacer`. Rates are `f64`; their operations are a parameter,
-- and so are the clock and the connection's statistics. An instant is a number of nanoseconds.
pub mod Rate
pub mod Run
pub mod Idle
use rust_vpn.Prelude.{
  ℕ, ◌+◌, ◌-◌, ◌*◌, ◌≤◌, ◌≡◌, ◌^◌, ◌||◌, not, Bool, true, false, Option, none, some, List, [], ◌∷◌,
  arith, ltb, leb, ◌==◌, if◌then◌else◌, min,
}

abbrev pub max_u64 : ℕ
max_u64 = 2 ^ 64 - 1

-- The operations on `f64` that the pacer uses; `literal n d` is the constant n / d.
pub record Float (F : Type 0) : Type 0 where
  pub of_u64 : ℕ → F
  pub literal : ℕ → ℕ → F
  pub add : F → F → F
  pub sub : F → F → F
  pub mul : F → F → F
  pub div : F → F → F
  pub larger : F → F → F
  pub smaller : F → F → F
  pub abs : F → F
  pub gt : F → F → Bool
  pub le : F → F → Bool
  pub ceil_u64 : F → ℕ
  pub epsilon : F
  -- `Duration::as_secs_f64` and `Duration::from_secs_f64`, in nanoseconds
  pub secs_of_nanos : ℕ → F
  pub nanos_of_secs : F → ℕ

pub record EgressPacer (F : Type 0) : Type 0 where
  pub max_bytes_per_sec : Option F
  pub current_bytes_per_sec : Option F
  pub min_bytes_per_sec : Option F
  pub burst_bytes : ℕ
  pub epoch_started : ℕ
  pub epoch_bytes : ℕ
  pub adaptive : Bool
  pub last_adjust : ℕ
  pub last_lost_packets : Option ℕ
  pub last_congestion_events : Option ℕ

-- What one call sees: the clock at each place that reads it, and the connection's counters.
pub record Observed : Type 0 where
  pub adjust_elapsed_at : ℕ
  pub adjusted_at : ℕ
  pub epoch_reset_at : ℕ
  pub wait_elapsed_at : ℕ
  pub before_sleep : ℕ
  pub lost_packets : ℕ
  pub congestion_events : ℕ

abbrev unwrap_or {ℓ} : {A : Type ℓ} → Option A → A → A
unwrap_or none d = d
unwrap_or (some a) d = a

abbrev map_option {ℓ κ} : {A : Type ℓ} {B : Type κ} → (A → B) → Option A → Option B
map_option f none = none
map_option f (some a) = some (f a)

-- `Duration::from_millis(250)`
abbrev adjust_interval : ℕ
adjust_interval = 250_000_000

module _ {F : Type 0} (f : Float F) where
  unfoldable pub target_bytes_per_sec : ℕ → Option F
  target_bytes_per_sec target_mbps =
      if target_mbps == 0
      then none
      else some (f.div (f.mul (f.of_u64 target_mbps) (f.literal 1_000_000 1)) (f.literal 8 1))

  unfoldable pub target_burst_bytes : Option F → ℕ → ℕ
  target_burst_bytes rate mtu =
      unwrap_or
        (map_option (λ (r : F). f.ceil_u64 (f.larger (f.mul r (f.literal 5 1000)) (f.of_u64 mtu)))
          rate)
        0

  -- `EgressPacer::new`; the first argument is `Instant::now()`.
  unfoldable pub new : ℕ → ℕ → ℕ → Bool → EgressPacer F
  unfolding target_bytes_per_sec target_burst_bytes
  new now target_mbps packet_bytes adaptive =
      let rate = target_bytes_per_sec target_mbps in
      record {
        max_bytes_per_sec = rate;
        current_bytes_per_sec = rate;
        min_bytes_per_sec = map_option (λ (r : F). f.mul r (f.literal 50 100)) rate;
        burst_bytes = target_burst_bytes rate packet_bytes;
        epoch_started = now;
        epoch_bytes = 0;
        adaptive = adaptive;
        last_adjust = now;
        last_lost_packets = none;
        last_congestion_events = none;
      }

  unfoldable pub from_optional : ℕ → Option ℕ → ℕ → Bool → EgressPacer F
  unfolding new
  from_optional now target_mbps packet_bytes adaptive =
      new now (unwrap_or target_mbps 0) packet_bytes adaptive

  reset_epoch : Observed → EgressPacer F → EgressPacer F
  reset_epoch o p = record p { epoch_started = o.epoch_reset_at; epoch_bytes = 0 }

  -- The rate that an adjustment aims at.
  next_rate : EgressPacer F → F → Bool → F
  next_rate p current congested =
      if congested
      then f.larger (f.mul current (f.literal 85 100)) (unwrap_or p.min_bytes_per_sec current)
      else f.smaller (f.mul current (f.literal 102 100)) (unwrap_or p.max_bytes_per_sec current)

  -- The rate is written, and a new epoch begun, only where it changes.
  set_rate : Observed → EgressPacer F → F → F → EgressPacer F
  unfolding reset_epoch
  set_rate o p current next =
      if f.gt (f.abs (f.sub next current)) f.epsilon
      then reset_epoch o (record p { current_bytes_per_sec = some next })
      else p

  -- The connection's counters are noted for the next adjustment.
  noted : Observed → EgressPacer F → EgressPacer F
  noted o p = record p {
    last_lost_packets = some o.lost_packets;
    last_congestion_events = some o.congestion_events;
    last_adjust = o.adjusted_at;
  }

  -- With the counters of the last adjustment at hand.
  adjust_from : Observed → EgressPacer F → F → Option ℕ → EgressPacer F
  unfolding next_rate set_rate noted
  adjust_from o p current none = noted o p
  adjust_from o p current (some previous_lost_packets) =
      let previous_congestion_events = unwrap_or p.last_congestion_events o.congestion_events in
      set_rate o (noted o p) current (
        next_rate (noted o p) current (
          ltb previous_lost_packets o.lost_packets
          || ltb previous_congestion_events o.congestion_events))

  adjust_current : Observed → EgressPacer F → Option F → EgressPacer F
  unfolding adjust_from
  adjust_current o p none = p
  adjust_current o p (some current) =
      if ltb (o.adjust_elapsed_at - p.last_adjust) adjust_interval
      then p
      else adjust_from o p current p.last_lost_packets

  unfoldable pub adjust : Observed → EgressPacer F → EgressPacer F
  unfolding adjust_current
  adjust o p = adjust_current o p p.current_bytes_per_sec

  wait_at : Observed → EgressPacer F → Option F → Option ℕ
  wait_at o p none = none
  wait_at o p (some current) =
      let elapsed = f.secs_of_nanos (o.wait_elapsed_at - p.epoch_started) in
      let allowed_bytes = f.add (f.mul elapsed current) (f.of_u64 p.burst_bytes) in
      let target_elapsed =
        f.nanos_of_secs (f.div (f.of_u64 (p.epoch_bytes - p.burst_bytes)) current) in
      let target_time = p.epoch_started + target_elapsed in
      if leb p.epoch_bytes p.burst_bytes
      then none
      else if f.le (f.of_u64 p.epoch_bytes) allowed_bytes
      then none
      else if ltb o.before_sleep target_time
      then some target_time
      else none

  -- `wait`: the instant until which it sleeps, if it does.
  unfoldable pub wait : Observed → EgressPacer F → Option ℕ
  unfolding wait_at
  wait o p = wait_at o p p.current_bytes_per_sec

  -- `record_and_wait`; the flag says whether it is given a connection.
  unfoldable pub record_and_wait : ℕ → Bool → Observed → EgressPacer F → EgressPacer F × Option ℕ
  unfolding adjust wait
  record_and_wait packet_bytes connected o p =
      let counted : EgressPacer F = record p {
        epoch_bytes = min (p.epoch_bytes + packet_bytes) max_u64;
      } in
      let adjusted =
        if p.adaptive then (if connected then adjust o counted else counted) else counted in
      (adjusted, wait o adjusted)
