-- ===== src/Core/Quic/Pacer/Rate.antt =====
-- crates/litevpn-core/src/quic.rs: the pacer's rate stays between half the target and the target.
use rust_vpn.Prelude.{
  ℕ, ◌+◌, ◌≡◌, refl, Bool, true, false, Option, none, some, ltb, ◌-◌, min, ◌==◌, if◌then◌else◌,
  Bool-cases, inl, inr,
}
use rust_vpn.Core.Quic.Pacer.{
  Float, EgressPacer, Observed, new, next_rate, set_rate, adjust_from, adjust_current, adjust,
  noted, adjust_interval, max_u64, record_and_wait,
}

-- What IEEE 754 gives for the rates, which are finite and not negative: an order, the larger and the
-- smaller of two, and that the pacer's factors 0.5 and 0.85 do not enlarge a rate nor 1.02 lessen it.
pub record FloatLaws {F : Type 0} (f : Float F) (Le : F → F → Type 0) : Type 0 where
  pub le_refl : (a : F) → Le a a
  pub le_trans : (a b c : F) → Le a b → Le b c → Le a c
  pub le-larger : (a b : F) → Le b (f.larger a b)
  pub larger-le : (a b c : F) → Le a c → Le b c → Le (f.larger a b) c
  pub smaller-le : (a b : F) → Le (f.smaller a b) b
  pub le-smaller : (a b c : F) → Le c a → Le c b → Le c (f.smaller a b)
  pub halved : (a : F) → Le (f.mul a (f.literal 50 100)) a
  pub lessened : (a : F) → Le (f.mul a (f.literal 85 100)) a
  pub enlarged : (a : F) → Le a (f.mul a (f.literal 102 100))

-- The three rates of a pacer: all missing, or the current one between the other two.
module _ {F : Type 0} (Le : F → F → Type 0) where
  abbrev pub Between : Option F → Option F → Option F → Type 0
  Between none none none = Unit {0}
  Between none none (some hi) = ⊥
  Between none (some c) hi = ⊥
  Between (some lo) none hi = ⊥
  Between (some lo) (some c) none = ⊥
  Between (some lo) (some c) (some hi) = Le lo c × Le c hi

  abbrev pub IsPaced : EgressPacer F → Type 0
  IsPaced p = Between p.min_bytes_per_sec p.current_bytes_per_sec p.max_bytes_per_sec

module _ {F : Type 0} (f : Float F) (Le : F → F → Type 0) (laws : FloatLaws f Le) where
  next_rate-Between :
      (p : EgressPacer F) (lo current hi : F) (congested : Bool)
      → p.min_bytes_per_sec ≡ some lo
      → p.max_bytes_per_sec ≡ some hi
      → Le lo current
      → Le current hi
      → Le lo (next_rate f p current congested) × Le (next_rate f p current congested) hi
  unfolding next_rate
  next_rate-Between p lo current hi true a b l h =
      rw (a, next_rate)
        (
          laws.le-larger _ lo,
          laws.larger-le _ lo hi (laws.le_trans _ current hi (laws.lessened current) h)
              (laws.le_trans lo current hi l h),
        )
  next_rate-Between p lo current hi false a b l h =
      rw (b, next_rate)
        (
          laws.le-smaller _ hi lo (laws.le_trans lo current _ l (laws.enlarged current))
              (laws.le_trans lo current hi l h),
          laws.smaller-le _ hi,
        )

  set_rate-IsPaced :
      (o : Observed) (p : EgressPacer F) (lo current hi next : F)
      → p.min_bytes_per_sec ≡ some lo
      → p.max_bytes_per_sec ≡ some hi
      → Le lo next
      → Le next hi
      → IsPaced Le p
      → IsPaced Le (set_rate f o p current next)
  unfolding set_rate
  set_rate-IsPaced o p lo current hi next a b l h k =
      elim (Bool-cases (f.gt (f.abs (f.sub next current)) f.epsilon)) [
        | inl e ↦ rw (e, a, b) (l, h)
        | inr e ↦ rw e k
      ]

  adjust_from-IsPaced :
      (o : Observed) (p : EgressPacer F) (lo current hi : F) (previous : Option ℕ)
      → p.min_bytes_per_sec ≡ some lo
      → p.max_bytes_per_sec ≡ some hi
      → Le lo current
      → Le current hi
      → IsPaced Le p
      → IsPaced Le (adjust_from f o p current previous)
  unfolding adjust_from
  adjust_from-IsPaced o p lo current hi none a b l h k = k
  adjust_from-IsPaced o p lo current hi (some lost) a b l h k =
      let (above, below) = next_rate-Between (noted f o p) lo current hi _ a b l h in
      set_rate-IsPaced o (noted f o p) lo current hi _ a b above below k

  adjust_current-IsPaced :
      (o : Observed) (p : EgressPacer F) (lo current hi : Option F)
      → p.min_bytes_per_sec ≡ lo
      → p.max_bytes_per_sec ≡ hi
      → Between Le lo current hi
      → IsPaced Le p
      → IsPaced Le (adjust_current f o p current)
  adjust_current-IsPaced o p lo none hi a b h k = unfold adjust_current in k
  adjust_current-IsPaced o p none (some c) hi a b h k = absurd h
  adjust_current-IsPaced o p (some lo) (some c) none a b h k = absurd h
  adjust_current-IsPaced o p (some lo) (some c) (some hi) a b h k =
      unfold adjust_current in
      elim (Bool-cases (ltb (o.adjust_elapsed_at - p.last_adjust) adjust_interval)) [
        | inl e ↦ rw e k
        | inr e ↦ rw e (adjust_from-IsPaced o p lo c hi p.last_lost_packets a b h.0 h.1 k)
      ]

  adjust-IsPaced : (o : Observed) (p : EgressPacer F) → IsPaced Le p → IsPaced Le (adjust f o p)
  unfolding adjust
  adjust-IsPaced o p k =
      adjust_current-IsPaced o p p.min_bytes_per_sec p.current_bytes_per_sec p.max_bytes_per_sec
        refl refl k k

  pub record_and_wait-IsPaced :
      (n : ℕ) (connected : Bool) (o : Observed) (p : EgressPacer F)
      → IsPaced Le p
      → IsPaced Le (record_and_wait f n connected o p).0
  unfolding record_and_wait
  record_and_wait-IsPaced n connected o p k = go p.adaptive connected
    where
      counted : EgressPacer F
      counted = record p { epoch_bytes = min (p.epoch_bytes + n) max_u64 }

      go :
          (a c : Bool)
          → IsPaced Le (if a then (if c then adjust f o counted else counted) else counted)
      go true true = adjust-IsPaced o counted k
      go true false = k
      go false c = k

  pub new-IsPaced :
      (now mbps bytes : ℕ) (adaptive : Bool) → IsPaced Le (new f now mbps bytes adaptive)
  unfolding new
  new-IsPaced now mbps bytes adaptive = elim (Bool-cases (mbps == 0)) [
    | inl e ↦ rw e tt
    | inr e ↦ rw e (laws.halved _, laws.le_refl _)
  ]
