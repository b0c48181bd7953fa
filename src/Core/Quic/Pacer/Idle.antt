-- ===== src/Core/Quic/Pacer/Idle.antt =====
-- crates/litevpn-core/src/quic.rs: what a pacer lets through behind a pause. The allowance of an epoch
-- grows with the time that has passed, and the target alone does not begin a new epoch.
use rust_vpn.Prelude.{
  ℕ, ◌+◌, ◌-◌, ◌≤◌, ◌≡◌, refl, ap, Bool, true, false, Option, none, some, List, [], ◌∷◌, arith,
  if◌then◌else◌, min, All,
}
use rust_vpn.Core.Quic.Pacer.{Float, EgressPacer, Observed, max_u64, wait_at, wait, record_and_wait}
use rust_vpn.Core.Quic.Pacer.Run.{Sent}

-- What IEEE 754 gives, whose operations are monotone: fewer bytes are allowed where more are, and a later
-- time allows what an earlier one does, at a rate that is not negative.
pub record AllowanceLaws {F : Type 0} (f : Float F) : Type 0 where
  pub fewer :
      (m n : ℕ) (allowed : F)
      → m ≤ n
      → f.le (f.of_u64 n) allowed ≡ true
      → f.le (f.of_u64 m) allowed ≡ true
  pub later :
      (a b : ℕ) (bytes rate burst : F)
      → f.le (f.of_u64 0) rate ≡ true
      → a ≤ b
      → f.le bytes (f.add (f.mul (f.secs_of_nanos a) rate) burst) ≡ true
      → f.le bytes (f.add (f.mul (f.secs_of_nanos b) rate) burst) ≡ true

-- The bytes of the calls together.
unfoldable pub total_bytes : List Sent → ℕ
total_bytes [] = 0
total_bytes ((n, connected, o) ∷ calls) = n + total_bytes calls

module _ {F : Type 0} (f : Float F) where
  -- The instants until which the calls sleep, one after the other.
  unfoldable pub sleeps : EgressPacer F → List Sent → List (Option ℕ)
  sleeps p [] = []
  sleeps p ((n, connected, o) ∷ calls) =
      let (p', slept) = record_and_wait f n connected o p in slept ∷ sleeps p' calls

  -- The bytes that `elapsed` nanoseconds allow in an epoch.
  abbrev pub allowed : EgressPacer F → F → ℕ → F
  allowed p rate elapsed = f.add (f.mul (f.secs_of_nanos elapsed) rate) (f.of_u64 p.burst_bytes)

  abbrev counted : ℕ → EgressPacer F → EgressPacer F
  counted n p = record p { epoch_bytes = min (p.epoch_bytes + n) max_u64 }

  record_and_wait-counted :
      (n : ℕ) (connected : Bool) (o : Observed) (p : EgressPacer F)
      → p.adaptive ≡ false
      → record_and_wait f n connected o p ≡ (counted n p, wait f o (counted n p))
  unfolding record_and_wait
  record_and_wait-counted n connected o p h =
      ap (λ (q : EgressPacer F). (q, wait f o q)) (cases p.adaptive _ h)
    where
      cases :
          (a : Bool) (q : EgressPacer F) → a ≡ false → (if a then q else counted n p) ≡ counted n p
      cases true q e = absurd (cc)
      cases false q e = refl

  module _ (laws : AllowanceLaws f) (rate : F) (positive : f.le (f.of_u64 0) rate ≡ true) where
    wait-allowed :
        (o : Observed) (p : EgressPacer F) (idle n : ℕ)
        → p.current_bytes_per_sec ≡ some rate
        → p.epoch_bytes ≤ n
        → f.le (f.of_u64 n) (allowed p rate idle) ≡ true
        → idle ≤ o.wait_elapsed_at - p.epoch_started
        → wait f o p ≡ none
    unfolding wait wait_at
    wait-allowed o p idle n r b a t =
        let fits =
          laws.later idle (o.wait_elapsed_at - p.epoch_started) _ rate (f.of_u64 p.burst_bytes)
            positive t (laws.fewer p.epoch_bytes n _ b a) in
        rw r (ground (arith, fits))

    -- Where the time since the start of the epoch allows so many bytes, a pacer that is not adaptive lets
    -- through packets of that many bytes, one behind the other, without a single sleep: behind a pause
    -- the burst is what the pause would have carried, and not the burst window.
    pub pause_is_credit :
        (p : EgressPacer F) (calls : List Sent) (idle n : ℕ)
        → p.adaptive ≡ false
        → p.current_bytes_per_sec ≡ some rate
        → p.epoch_bytes + total_bytes calls ≤ n
        → f.le (f.of_u64 n) (allowed p rate idle) ≡ true
        → All (λ (c : Sent). idle ≤ c.2.wait_elapsed_at - p.epoch_started) calls
        → All (λ (s : Option ℕ). s ≡ none) (sleeps p calls)
    unfolding total_bytes sleeps
    pause_is_credit p [] idle n a r b h ts = tt
    pause_is_credit p ((m, connected, o) ∷ calls) idle n a r b h (t, ts) =
        rw (record_and_wait-counted m connected o p a) (
          wait-allowed o (counted m p) idle n r (omega arith) h t,
          pause_is_credit (counted m p) calls idle n a r (omega arith) h ts,
        )
