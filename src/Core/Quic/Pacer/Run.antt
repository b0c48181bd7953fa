-- ===== src/Core/Quic/Pacer/Run.antt =====
-- crates/litevpn-core/src/quic.rs: a pacer over any number of calls of `record_and_wait`.
use rust_vpn.Prelude.{
  ℕ, ◌+◌, ◌≡◌, refl, subst, Bool, true, false, Option, none, some, List, [], ◌∷◌, arith,
  if◌then◌else◌, min, ◌∙◌,
}
use rust_vpn.Core.Quic.Pacer.{
  Float, EgressPacer, Observed, target_bytes_per_sec, new, set_rate, adjust_from, adjust_current,
  adjust, wait, record_and_wait, max_u64,
}
use rust_vpn.Core.Quic.Pacer.Rate.{
  FloatLaws, Between, IsPaced, record_and_wait-IsPaced, new-IsPaced,
}

-- One call: the bytes, whether a connection is given, and what is observed.
abbrev pub Sent : Type 0
Sent = ℕ × Bool × Observed

module _ {F : Type 0} (f : Float F) where
  -- The pacer after a number of calls.
  unfoldable pub run : EgressPacer F → List Sent → EgressPacer F
  run p [] = p
  run p ((n, connected, o) ∷ calls) = run (record_and_wait f n connected o p).0 calls

  -- The bounds of the rate are written by `new` alone.
  abbrev SameBounds : EgressPacer F → EgressPacer F → Type 0
  SameBounds p q =
      (q.min_bytes_per_sec ≡ p.min_bytes_per_sec) × (q.max_bytes_per_sec ≡ p.max_bytes_per_sec)

  set_rate-SameBounds :
      (o : Observed) (p : EgressPacer F) (current next : F)
      → SameBounds p (set_rate f o p current next)
  unfolding set_rate
  set_rate-SameBounds o p current next = ground arith

  adjust-SameBounds :
      (o : Observed) (p : EgressPacer F) (current : Option F)
      → SameBounds p (adjust_current f o p current)
  unfolding adjust_current adjust_from
  adjust-SameBounds o p none = (refl, refl)
  adjust-SameBounds o p (some c) = ground arith

  record_and_wait-SameBounds :
      (n : ℕ) (connected : Bool) (o : Observed) (p : EgressPacer F)
      → SameBounds p (record_and_wait f n connected o p).0
  unfolding record_and_wait adjust
  record_and_wait-SameBounds n connected o p = go p.adaptive connected
    where
      counted : EgressPacer F
      counted = record p { epoch_bytes = min (p.epoch_bytes + n) max_u64 }

      go :
          (a c : Bool)
          → SameBounds p (
              if a
              then (if c then adjust_current f o counted p.current_bytes_per_sec else counted)
              else counted)
      go true true = adjust-SameBounds o counted p.current_bytes_per_sec
      go true false = (refl, refl)
      go false c = (refl, refl)

  run-SameBounds : (p : EgressPacer F) (calls : List Sent) → SameBounds p (run p calls)
  unfolding run
  run-SameBounds p [] = (refl, refl)
  run-SameBounds p ((n, connected, o) ∷ calls) =
      let (a, b) = record_and_wait-SameBounds n connected o p in
      let (c, d) = run-SameBounds (record_and_wait f n connected o p).0 calls in (c ∙ a, d ∙ b)

  -- A pacer with no target has no rate, whatever it is told, and never sleeps.
  record_and_wait_unlimited :
      (n : ℕ) (connected : Bool) (o : Observed) (p : EgressPacer F)
      → p.current_bytes_per_sec ≡ none
      → ((record_and_wait f n connected o p).0.current_bytes_per_sec ≡ none)
        × ((record_and_wait f n connected o p).1 ≡ none)
  unfolding record_and_wait adjust adjust_current wait
  record_and_wait_unlimited n connected o p h = ground arith

  run_unlimited :
      (p : EgressPacer F) (calls : List Sent)
      → p.current_bytes_per_sec ≡ none
      → (run p calls).current_bytes_per_sec ≡ none
  unfolding run
  run_unlimited p [] h = h
  run_unlimited p ((n, connected, o) ∷ calls) h =
      run_unlimited (record_and_wait f n connected o p).0 calls
        (record_and_wait_unlimited n connected o p h).0

  -- A target of 0 Mbps switches pacing off: no call ever sleeps, adaptive or not, however many bytes
  -- were sent before.
  pub zero_target_never_sleeps :
      (now bytes : ℕ) (adaptive : Bool) (calls : List Sent) (n : ℕ) (connected : Bool)
      (o : Observed)
      → (record_and_wait f n connected o (run (new f now 0 bytes adaptive) calls)).1 ≡ none
  zero_target_never_sleeps now bytes adaptive calls n connected o =
      (record_and_wait_unlimited n connected o _
        (run_unlimited (new f now 0 bytes adaptive) calls (unfold new in refl))).1

module _ {F : Type 0} (f : Float F) (Le : F → F → Type 0) (laws : FloatLaws f Le) where
  run-IsPaced : (p : EgressPacer F) (calls : List Sent) → IsPaced Le p → IsPaced Le (run f p calls)
  unfolding run
  run-IsPaced p [] k = k
  run-IsPaced p ((n, connected, o) ∷ calls) k =
      run-IsPaced (record_and_wait f n connected o p).0 calls
        (record_and_wait-IsPaced f Le laws n connected o p k)

  new-bounds :
      (now mbps bytes : ℕ) (adaptive : Bool) (target : F)
      → target_bytes_per_sec f mbps ≡ some target
      → ((new f now mbps bytes adaptive).min_bytes_per_sec ≡ some (f.mul target (f.literal 50 100)))
        × ((new f now mbps bytes adaptive).max_bytes_per_sec ≡ some target)
  unfolding new
  new-bounds now mbps bytes adaptive target h = ground arith

  current-Between :
      (lo current hi : Option F) (half target : F)
      → lo ≡ some half
      → hi ≡ some target
      → Between Le lo current hi
      → (rate : F) × (current ≡ some rate) × Le half rate × Le rate target
  current-Between none current hi half target a b h = cc
  current-Between (some lo) none hi half target a b h = absurd h
  current-Between (some lo) (some c) none half target a b h = absurd h
  current-Between (some lo) (some c) (some hi) half target a b h =
      (c, refl, subst (λ x. Le x c) (ground arith) h.0, subst (Le c) (ground arith) h.1)

  -- Whatever loss and congestion a pacer sees, its rate stays between half the target and the target,
  -- and the target itself never changes.
  pub rate_bounds :
      (now mbps bytes : ℕ) (adaptive : Bool) (calls : List Sent) (target : F)
      → target_bytes_per_sec f mbps ≡ some target
      → (rate : F) × ((run f (new f now mbps bytes adaptive) calls).current_bytes_per_sec
          ≡ some rate)
        × Le (f.mul target (f.literal 50 100)) rate
        × Le rate target
  rate_bounds now mbps bytes adaptive calls target h =
      let start = new f now mbps bytes adaptive in
      let (lo, hi) = run-SameBounds f start calls in
      let (half, full) = new-bounds now mbps bytes adaptive target h in
      current-Between _ _ _ (f.mul target (f.literal 50 100)) target (lo ∙ half) (hi ∙ full)
        (run-IsPaced start calls (new-IsPaced f Le laws now mbps bytes adaptive))
