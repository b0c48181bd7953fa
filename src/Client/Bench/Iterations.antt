-- ===== src/Client/Bench/Iterations.antt =====
-- crates/litevpn-client/src/main.rs: `run_bench_iterations`. The outcome of `connect_client` in each
-- run, the answer of the authentication and the outcome of `run_bench` are arguments.
use rust_vpn.Prelude.{
  ℕ, subst, zero, suc, ◌+◌, ◌<◌, ◌≡◌, ◌≢◌, refl, ap, Bool, true, false, List, [], ◌∷◌, ◌++◌, Option,
  none, some, arith, length, length-append,
}
use rust_vpn.Bench.{connect_failed, auth_failed, panicked, Ran, ran, failed, running}
use rust_vpn.Client.Connect.{Outcome, connected, given_up, missing}

-- The connections that were opened after the first, those that were closed, and the measurements.
pub record Progress (C M : Type 0) : Type 0 where
  pub opened : List C
  pub closed : List C
  pub measurements : List M

-- How the runs end, and the progress until then.
abbrev pub Iterated : Type 0 → Type 0 → Type 0
Iterated C M = Ran (List M) × Progress C M

module _ {E C M : Type 0} (connect_client : ℕ → Outcome E C) (authenticate : ℕ → C → Bool)
    (run_bench : ℕ → C → Ran M) where
  -- `connection.close(..)` and `measurements.push(result?)`
  after_bench : Progress C M → C → Ran M → (Progress C M → Iterated C M) → Iterated C M
  after_bench p c (ran m) next =
      next (record p { closed = p.closed ++ c ∷ []; measurements = p.measurements ++ m ∷ [] })
  after_bench p c (failed e) next = (failed e, record p { closed = p.closed ++ c ∷ [] })
  after_bench p c running next = (running, p)

  after_authenticate : ℕ → Progress C M → C → Bool → (Progress C M → Iterated C M) → Iterated C M
  unfolding after_bench
  after_authenticate run p c true next = after_bench p c (run_bench run c) next
  after_authenticate run p c false next = (failed auth_failed, p)

  after_connect : ℕ → Progress C M → Outcome E C → (Progress C M → Iterated C M) → Iterated C M
  unfolding after_authenticate
  after_connect run p (connected c) next =
      after_authenticate run (record p { opened = p.opened ++ c ∷ [] }) c (authenticate run c) next
  after_connect run p (given_up e) next = (failed connect_failed, p)
  after_connect run p missing next = (failed panicked, p)

  -- `next_connection.take()`: the first connection is there in the first run only.
  take_connection : ℕ → Progress C M → Option C → (Progress C M → Iterated C M) → Iterated C M
  unfolding after_bench after_connect
  take_connection run p (some c) next = after_bench p c (run_bench run c) next
  take_connection run p none next = after_connect run p (connect_client run) next

  -- The loop, with the runs that are left.
  iterate : ℕ → ℕ → Option C → Progress C M → Iterated C M
  iterate zero run first p = (ran p.measurements, p)
  iterate (suc left) run first p = take_connection run p first (λ q. iterate left (suc run) none q)

  unfoldable pub run_bench_iterations : C → ℕ → Iterated C M
  unfolding iterate take_connection
  run_bench_iterations first_connection runs =
      iterate runs 1 (some first_connection)
        (record { opened = []; closed = []; measurements = [] })

  -- What the runs leave: a measurement for each of them where all succeed, and, unless the last
  -- connection was refused or is still in use, no connection that is not closed.
  pub record IsBalanced (first : C) (measured left : ℕ) (r : Iterated C M) : Type 0 where
    pub all_measured : (ms : List M) → r.0 ≡ ran ms → length ms ≡ measured + left
    pub all_closed : r.0 ≢ running → r.0 ≢ failed auth_failed → r.1.closed ≡ first ∷ r.1.opened

  abbrev Goes : C → ℕ → ℕ → (Progress C M → Iterated C M) → Type 0
  Goes first measured left next =
      (q : Progress C M)
      → q.closed ≡ first ∷ q.opened
      → length q.measurements ≡ suc measured
      → IsBalanced first (suc measured) left (next q)

  -- The bench of a connection that is the only one open.
  after_bench-IsBalanced :
      (first c : C) (left : ℕ) (p : Progress C M) (r : Ran M) (next : Progress C M → Iterated C M)
      → p.closed ++ c ∷ [] ≡ first ∷ p.opened
      → Goes first (length p.measurements) left next
      → IsBalanced first (length p.measurements) (suc left) (after_bench p c r next)
  unfolding after_bench
  after_bench-IsBalanced first c left p (ran m) next e k =
      let h : IsBalanced first (suc (length p.measurements)) left _ =
        k (record p { closed = p.closed ++ c ∷ []; measurements = p.measurements ++ m ∷ [] }) e
          (omega (arith, length-append p.measurements (m ∷ []))) in
      record {
        all_measured = λ ms r. omega (arith, h.all_measured ms r);
        all_closed = h.all_closed;
      }
  after_bench-IsBalanced first c left p (failed x) next e k = record {
    all_measured = λ ms r. cc;
    all_closed = λ a b. e;
  }
  after_bench-IsBalanced first c left p running next e k = record {
    all_measured = λ ms r. cc;
    all_closed = λ a b. absurd (a refl);
  }

  after_authenticate-IsBalanced :
      (run : ℕ) (first c : C) (left : ℕ) (p : Progress C M) (accepted : Bool)
      (next : Progress C M → Iterated C M)
      → p.closed ++ c ∷ [] ≡ first ∷ p.opened
      → Goes first (length p.measurements) left next
      → IsBalanced first
          (length p.measurements)
          (suc left)
          (after_authenticate run p c accepted next)
  unfolding after_authenticate
  after_authenticate-IsBalanced run first c left p true next e k =
      after_bench-IsBalanced first c left p (run_bench run c) next e k
  after_authenticate-IsBalanced run first c left p false next e k = record {
    all_measured = λ ms r. cc;
    all_closed = λ a b. absurd (b refl);
  }

  after_connect-IsBalanced :
      (run : ℕ) (first : C) (left : ℕ) (p : Progress C M) (o : Outcome E C)
      (next : Progress C M → Iterated C M)
      → p.closed ≡ first ∷ p.opened
      → Goes first (length p.measurements) left next
      → IsBalanced first (length p.measurements) (suc left) (after_connect run p o next)
  unfolding after_connect
  after_connect-IsBalanced run first left p (connected c) next e k =
      after_authenticate-IsBalanced run first c left (record p { opened = p.opened ++ c ∷ [] })
        (authenticate run c) next (ap (λ (l : List C). l ++ c ∷ []) e) k
  after_connect-IsBalanced run first left p (given_up x) next e k = record {
    all_measured = λ ms r. cc;
    all_closed = λ a b. e;
  }
  after_connect-IsBalanced run first left p missing next e k = record {
    all_measured = λ ms r. cc;
    all_closed = λ a b. e;
  }

  iterate-IsBalanced :
      (left run : ℕ) (first : C) (p : Progress C M)
      → p.closed ≡ first ∷ p.opened
      → IsBalanced first (length p.measurements) left (iterate left run none p)
  unfolding iterate take_connection
  iterate-IsBalanced zero run first p e = record {
    all_measured = λ ms r. ground arith;
    all_closed = λ a b. e;
  }
  iterate-IsBalanced (suc left) run first p e =
      after_connect-IsBalanced run first left p (connect_client run)
        (λ q. iterate left (suc run) none q) e
        (λ q e' l.
          subst (λ n. IsBalanced first n left (iterate left (suc run) none q)) l
            (iterate-IsBalanced left (suc run) first q e'))

  -- All runs of a bench together, for one run or more: where they succeed there is a measurement for
  -- each, and however they end, unless a connection was not authenticated or is still in use, the
  -- connections that were closed are the first one and those that were opened after it, in order.
  pub run_bench_iterations-IsBalanced :
      (first : C) (runs : ℕ) → 0 < runs → IsBalanced first 0 runs (run_bench_iterations first runs)
  unfolding run_bench_iterations iterate take_connection
  run_bench_iterations-IsBalanced first zero h = absurd (omega arith)
  run_bench_iterations-IsBalanced first (suc left) h =
      after_bench-IsBalanced first first left
        (record { opened = []; closed = []; measurements = [] }) (run_bench 1 first)
        (λ q. iterate left 2 none q) refl
        (λ q e l.
          subst (λ n. IsBalanced first n left (iterate left 2 none q)) l
            (iterate-IsBalanced left 2 first q e))
