-- ===== src/Server/Active.antt =====
-- crates/litevpn-server/src/main.rs: who owns the slot of the active client.
use rust_vpn.Prelude.{
  ℕ, suc, ◌^◌, ◌<◌, ◌≤◌, ◌≡◌, ◌≢◌, refl, sym, ap, ◌∙◌, Bool, true, false, Option, none, some, arith,
  ◌==◌, if◌then◌else◌, ==_iff,
}
use rust_vpn.Server.{
  ActiveClient, Phase, absent, authenticating, benching, admitted, numbered, replacing, serving,
  ended, finished, Server, set, after_auth, take_id, replace, close_previous, clean_up, Step,
  accept, authenticated, bench_ends, id_taken, replaced, previous_closed, pumps_end, cleaned_up,
  Run, run_start, run_step, should_clear,
}
use rust_vpn.Server.Ids.{id_of, IsNumbered, IsNumbered-Step}
use rust_vpn.Server.Fates.{
  served_id, client, Fate, is_active, is_closed, is_displaced, AllFates, AllFates-Step, IsReplacing,
}

-- The number of a task that has been in the slot and has not cleaned up.
unfoldable pub slot_id : Phase → Option ℕ
slot_id (replacing id previous) = some id
slot_id (serving id) = some id
slot_id (ended client_id) = client_id
slot_id _ = none

abbrev IsOwned : Option ActiveClient → (ℕ → Phase) → Type 0
IsOwned active tasks =
    (c : ActiveClient) → active ≡ some c → slot_id (tasks c.connection) ≡ some c.id

quiet-IsOwned :
    (active : Option ActiveClient) (tasks : ℕ → Phase) (n : ℕ) (phase : Phase)
    → ((i : ℕ) → slot_id (tasks n) ≡ some i → slot_id phase ≡ some i)
    → IsOwned active tasks
    → IsOwned active (set n phase tasks)
quiet-IsOwned active tasks n phase keeps h c e = cases (c.connection == n) refl
  where
    cases :
        (own : Bool)
        → (c.connection == n) ≡ own
        → slot_id (if own then phase else tasks c.connection) ≡ some c.id
    cases true o =
        keeps c.id (ap (λ k. slot_id (tasks k)) (sym ((==_iff c.connection n).0 o)) ∙ h c e)
    cases false o = h c e

clean_up-IsOwned :
    (s : Server) (n : ℕ) (client_id : Option ℕ)
    → s.tasks n ≡ ended client_id
    → IsOwned s.active s.tasks
    → let t = clean_up s n client_id in IsOwned t.active t.tasks
unfolding clean_up
clean_up-IsOwned s n none e h c a =
    quiet-IsOwned s.active s.tasks n finished (λ i r. unfold slot_id in ground arith) h c a
clean_up-IsOwned s n (some id) e h c a = cases (should_clear s.active id) refl a
  where
    other :
        (own : Bool)
        → (c.connection == n) ≡ own
        → s.active ≡ some c
        → should_clear s.active id ≡ false
        → slot_id (if own then finished else s.tasks c.connection) ≡ some c.id
    other false o b keep = h c b
    other true o b keep =
        let at_n : s.tasks c.connection ≡ s.tasks n = ap s.tasks ((==_iff c.connection n).0 o) in
        let same : slot_id (ended (some id)) ≡ some c.id =
          ap slot_id (sym e) ∙ ap slot_id (sym at_n) ∙ h c b in
        let kept : should_clear (some c) id ≡ false = rw b at keep in
        absurd (unfold slot_id should_clear in ground arith)

    cases :
        (clear : Bool)
        → should_clear s.active id ≡ clear
        → (if clear then none else s.active) ≡ some c
        → slot_id (set n finished s.tasks c.connection) ≡ some c.id
    cases true o b = cc
    cases false o b = other (c.connection == n) refl b o

IsOwned-Step : {s t : Server} → Step s t → IsOwned s.active s.tasks → IsOwned t.active t.tasks
IsOwned-Step {s} (accept n e) h =
    quiet-IsOwned s.active s.tasks n authenticating (λ i r. unfold slot_id in ground arith) h
IsOwned-Step {s} (authenticated n mode t max mtu e) h =
    quiet-IsOwned s.active s.tasks n (after_auth mode t max mtu)
      (λ i r. unfold slot_id in ground arith) h
IsOwned-Step {s} (bench_ends n e) h =
    quiet-IsOwned s.active s.tasks n (ended none) (λ i r. unfold slot_id in ground arith) h
IsOwned-Step {s} (id_taken n e) h =
    unfold take_id in
    quiet-IsOwned s.active s.tasks n (numbered s.next_client_id)
      (λ i r. unfold slot_id in ground arith) h
IsOwned-Step {s} (replaced n id e) h = unfold replace in λ c a. unfold slot_id in ground arith
IsOwned-Step {s} (previous_closed n id none e) h =
    unfold close_previous in
    quiet-IsOwned s.active s.tasks n (serving id) (λ i r. unfold slot_id in ground arith) h
IsOwned-Step {s} (previous_closed n id (some previous) e) h =
    unfold close_previous in
    quiet-IsOwned s.active s.tasks n (serving id) (λ i r. unfold slot_id in ground arith) h
IsOwned-Step {s} (pumps_end n id e) h =
    quiet-IsOwned s.active s.tasks n (ended (some id)) (λ i r. unfold slot_id in ground arith) h
IsOwned-Step {s} (cleaned_up n client_id e) h = clean_up-IsOwned s n client_id e h

record IsOrderly (k : ℕ) (s : Server) : Type 0 where
  pub numbers : IsNumbered s.tasks s.next_client_id
  pub numbers_used : s.next_client_id ≤ suc k
  pub owned : IsOwned s.active s.tasks
  pub fates : AllFates s.active s.closed s.tasks

-- The steps that 64-bit numbers suffice for.
abbrev pub IsShort : ℕ → Type 0
IsShort k = suc (suc k) < 2 ^ 64

Run-IsOrderly : {k : ℕ} {s : Server} → Run k s → IsShort k → IsOrderly k s
Run-IsOrderly run_start l = record {
  numbers = record {
    below = λ n i e. unfold id_of in cc;
    unique = λ n m i e f. unfold id_of in cc;
  };
  numbers_used = omega arith;
  owned = λ c e. cc;
  fates = λ m i e. unfold served_id in cc;
}
Run-IsOrderly (run_step {k} {s} {t} r step) l =
    let h : IsOrderly k s = Run-IsOrderly r (omega arith) in
    let (numbers, used) = IsNumbered-Step step (omega (arith, h.numbers_used)) h.numbers in
    record {
      numbers = numbers;
      numbers_used = omega (arith, used, h.numbers_used);
      owned = IsOwned-Step step h.owned;
      fates = AllFates-Step step h.numbers h.fates;
    }

-- In whatever order the tasks run, the slot never holds a client that is gone: the task of the active
-- client has its number and has not cleaned up.
pub active_client_lives :
    {k : ℕ} {s : Server} (c : ActiveClient)
    → Run k s
    → IsShort k
    → s.active ≡ some c
    → slot_id (s.tasks c.connection) ≡ some c.id
active_client_lives c r l a = (Run-IsOrderly r l).owned c a

-- While no task is about to close a client that it has replaced, of the clients that have taken the slot
-- and have not left the tunnel at most one has a connection that the server has left open, and it is the
-- active one. Clients that were admitted and have yet to take the slot are not counted. The steps are
-- fewer than 64-bit numbers count.
pub one_client_forwards :
    {k : ℕ} {s : Server} (n m i j : ℕ)
    → Run k s
    → IsShort k
    → ((u : ℕ) → IsReplacing (s.tasks u) → ⊥)
    → served_id (s.tasks n) ≡ some i
    → served_id (s.tasks m) ≡ some j
    → s.closed n ≡ false
    → s.closed m ≡ false
    → (n ≡ m) × (s.active ≡ some (client i n))
one_client_forwards {k} {s} n m i j r l settled e f open_n open_m =
    let h : AllFates s.active s.closed s.tasks = (Run-IsOrderly r l).fates in
    let a : s.active ≡ some (client i n) = open_active n i (h n i e) open_n in
    let b : s.active ≡ some (client j m) = open_active m j (h m j f) open_m in (ground arith, a)
  where
    open_active :
        (m i : ℕ)
        → Fate s.active s.closed s.tasks m i
        → s.closed m ≡ false
        → s.active ≡ some (client i m)
    open_active m i (is_active a) o = a
    open_active m i (is_closed c) o = cc
    open_active m i (is_displaced u j q) o = absurd (settled u (j, client i m, q))

-- What has become of a client that was admitted and has not left.
pub client-Fate :
    {k : ℕ} {s : Server} (n i : ℕ)
    → Run k s
    → IsShort k
    → served_id (s.tasks n) ≡ some i
    → Fate s.active s.closed s.tasks n i
client-Fate n i r l e = (Run-IsOrderly r l).fates n i e

slot-numbered : (phase : Phase) (i : ℕ) → slot_id phase ≡ some i → id_of phase ≡ some i
unfolding slot_id id_of
slot-numbered (replacing id previous) i e = e
slot-numbered (serving id) i e = e
slot-numbered (numbered id) i e = cc
slot-numbered (ended client_id) i e = e
slot-numbered absent i e = cc
slot-numbered authenticating i e = cc
slot-numbered benching i e = cc
slot-numbered admitted i e = cc
slot-numbered finished i e = cc

-- In whatever order the tasks run, cleaning up behind one client never takes the slot from another.
pub clean_up_own_slot :
    {k : ℕ} {s : Server} (n id : ℕ) (c : ActiveClient)
    → Run k s
    → IsShort k
    → s.tasks n ≡ ended (some id)
    → s.active ≡ some c
    → c.connection ≢ n
    → (clean_up s n (some id)).active ≡ some c
clean_up_own_slot {k} {s} n id c r l e a other =
    let h : IsOrderly k s = Run-IsOrderly r l in
    let live : id_of (s.tasks c.connection) ≡ some c.id =
      slot-numbered (s.tasks c.connection) c.id (h.owned c a) in
    let kept : (c.id == id) ≡ false = unequal h live (c.id == id) refl in
    unfold clean_up should_clear in ground arith
  where
    unequal :
        IsOrderly k s
        → id_of (s.tasks c.connection) ≡ some c.id
        → (same : Bool) → (c.id == id) ≡ same
        → (c.id == id) ≡ false
    unequal h live false o = o
    unequal h live true o =
        absurd (other (h.numbers.unique c.connection n c.id live (unfold id_of in ground arith)))
