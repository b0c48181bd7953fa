-- ===== src/Client/Connect.antt =====
-- crates/litevpn-client/src/main.rs: `connect_client`, with what `connect_once` answers to each attempt
-- as an argument.
pub mod Once
use rust_vpn.Prelude.{
  ℕ, Bool, ap, ◌∙◌, zero, suc, ◌+◌, ◌-◌, ◌*◌, ◌≤◌, ◌<◌, ◌≡◌, refl, ◌⊎◌, inl, inr, true, false,
  Result, ok, err, arith, leb, if◌then◌else◌,
}

-- `missing` is the panic of the `expect` behind the loop.
pub data Outcome (E C : Type 0) : Type 0 where
  connected : C → Outcome E C
  given_up : E → Outcome E C
  missing : Outcome E C

-- How it ends, after how many attempts, and after how many milliseconds of sleep.
pub record Connecting (E C : Type 0) : Type 0 where
  pub outcome : Outcome E C
  pub attempts : ℕ
  pub slept_ms : ℕ

module _ {E C : Type 0} (once : ℕ → Result E C) (connect_retries connect_retry_delay_ms : ℕ) where
  abbrev ended : Outcome E C → ℕ → ℕ → Connecting E C
  ended outcome attempts slept_ms = record {
    outcome = outcome;
    attempts = attempts;
    slept_ms = slept_ms;
  }

  after_attempt : ℕ → ℕ → Result E C → Connecting E C → Connecting E C
  after_attempt attempt slept_ms (ok result) rest = ended (connected result) attempt slept_ms
  after_attempt attempt slept_ms (err error) rest =
      if leb connect_retries attempt then ended (given_up error) attempt slept_ms else rest

  -- The loop from an attempt on, with the number of attempts that the range still has.
  connect_loop : ℕ → ℕ → ℕ → Connecting E C
  connect_loop zero attempt slept_ms = ended missing (attempt - 1) slept_ms
  connect_loop (suc left) attempt slept_ms =
      after_attempt attempt slept_ms (once attempt)
        (connect_loop left (suc attempt) (slept_ms + connect_retry_delay_ms))

  unfoldable pub connect_client : Connecting E C
  unfolding connect_loop after_attempt
  connect_client = connect_loop connect_retries 1 0

  -- The attempts before the `k`-th fail.
  abbrev pub FailsBefore : ℕ → Type 0
  FailsBefore k = (j : ℕ) → 0 < j → j < k → (e : E) × (once j ≡ err e)

  -- What the loop does: it stops at the first success, or gives up behind the last failure; each
  -- failure before that is followed by one sleep.
  pub data Stops : Connecting E C → Type 0 where
    stop_connected :
        (k : ℕ) (c : C)
        → k < connect_retries
        → once (suc k) ≡ ok c
        → FailsBefore (suc k)
        → Stops (ended (connected c) (suc k) (k * connect_retry_delay_ms))
    stop_given_up :
        (k : ℕ) (e : E)
        → suc k ≡ connect_retries
        → once (suc k) ≡ err e
        → FailsBefore (suc k)
        → Stops (ended (given_up e) (suc k) (k * connect_retry_delay_ms))

  FailsBefore-suc : (k : ℕ) (e : E) → once k ≡ err e → FailsBefore k → FailsBefore (suc k)
  FailsBefore-suc k e h before j p q = elim (cases j k (omega arith)) [
    | inl l ↦ before j p l
    | inr same ↦ (e, ap once same ∙ h)
  ]
    where
      cases : (a b : ℕ) → a ≤ b → (a < b) ⊎ (a ≡ b)
      cases a b h = ground arith

  after_failed-Stops :
      (left k slept_ms : ℕ) (e : E) (rest : Connecting E C) (last : Bool)
      → left + suc k ≡ connect_retries
      → slept_ms ≡ k * connect_retry_delay_ms
      → FailsBefore (suc k)
      → (0 < left → FailsBefore (suc (suc k)) → Stops rest)
      → once (suc k) ≡ err e
      → leb connect_retries (suc k) ≡ last
      → Stops (if last then ended (given_up e) (suc k) slept_ms else rest)
  after_failed-Stops left k slept_ms e rest true total slept before next h same =
      rw slept (stop_given_up k e (ground arith) h before)
  after_failed-Stops left k slept_ms e rest false total slept before next h same =
      next (ground arith) (FailsBefore-suc (suc k) e h before)

  after_attempt-Stops :
      (left k slept_ms : ℕ) (rest : Connecting E C) (answer : Result E C)
      → left + suc k ≡ connect_retries
      → slept_ms ≡ k * connect_retry_delay_ms
      → FailsBefore (suc k)
      → (0 < left → FailsBefore (suc (suc k)) → Stops rest)
      → once (suc k) ≡ answer
      → Stops (after_attempt (suc k) slept_ms answer rest)
  unfolding after_attempt
  after_attempt-Stops left k slept_ms rest (ok c) total slept before next h =
      rw slept (stop_connected k c (omega arith) h before)
  after_attempt-Stops left k slept_ms rest (err e) total slept before next h =
      after_failed-Stops left k slept_ms e rest _ total slept before next h refl

  connect_loop-Stops :
      (left k slept_ms : ℕ)
      → 0 < left
      → left + k ≡ connect_retries
      → slept_ms ≡ k * connect_retry_delay_ms
      → FailsBefore (suc k)
      → Stops (connect_loop left (suc k) slept_ms)
  unfolding connect_loop
  connect_loop-Stops zero k slept_ms l total slept before = absurd (omega arith)
  connect_loop-Stops (suc left) k slept_ms l total slept before =
      after_attempt-Stops left k slept_ms _ (once (suc k)) (omega arith) slept before
        (λ more fails.
          connect_loop-Stops left (suc k) (slept_ms + connect_retry_delay_ms) more (omega arith)
            (grind arith) fails)
        refl

  -- For one attempt or more, the loop tries until the first success and returns that connection; when
  -- all attempts fail it returns the last error, after exactly `connect_retries` attempts, and never
  -- reaches the `expect`. It sleeps once between two attempts.
  pub connect_client-Stops : 0 < connect_retries → Stops connect_client
  unfolding connect_client
  connect_client-Stops h =
      connect_loop-Stops connect_retries 0 0 h (omega arith) (omega arith)
        (λ j p q. absurd (omega arith))
