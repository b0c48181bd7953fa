-- ===== src/Server/Fates.antt =====
-- crates/litevpn-server/src/main.rs: what becomes of the clients that lost the slot.
use rust_vpn.Prelude.{
  ℕ, ◌≡◌, refl, sym, ap, ◌∙◌, Bool, true, false, Option, none, some, arith, ◌==◌, if◌then◌else◌,
  ==_iff,
}
use rust_vpn.Server.{
  ActiveClient, Phase, absent, authenticating, benching, admitted, numbered, replacing, serving,
  ended, finished, Server, set, after_auth, take_id, replace, close_previous, clean_up, Step,
  accept, authenticated, bench_ends, id_taken, replaced, previous_closed, pumps_end, cleaned_up,
  should_clear,
}
use rust_vpn.Server.Ids.{id_of, IsNumbered}
use rust_vpn.Core.Auth.{AuthMode, vpn, bench}
use rust_vpn.Core.Config.{VpnTransportMode, datagram, stream}

-- The number of a task that forwards packets, or is about to.
unfoldable pub served_id : Phase → Option ℕ
served_id (replacing id previous) = some id
served_id (serving id) = some id
served_id _ = none

abbrev pub client : ℕ → ℕ → ActiveClient
client id n = record { id = id; connection = n }

-- A client that was admitted owns the slot, or its connection is closed, or a newer task holds it in its
-- hands to close it.
pub data Fate (active : Option ActiveClient) (closed : ℕ → Bool) (tasks : ℕ → Phase) (n i : ℕ)
    : Type 0 where
  is_active : active ≡ some (client i n) → Fate active closed tasks n i
  is_closed : closed n ≡ true → Fate active closed tasks n i
  is_displaced :
      (u j : ℕ) → tasks u ≡ replacing j (some (client i n)) → Fate active closed tasks n i

abbrev pub AllFates : Option ActiveClient → (ℕ → Bool) → (ℕ → Phase) → Type 0
AllFates active closed tasks =
    (m i : ℕ) → served_id (tasks m) ≡ some i → Fate active closed tasks m i

abbrev pub IsReplacing : Phase → Type 0
IsReplacing phase = (j : ℕ) × (p : ActiveClient) × (phase ≡ replacing j (some p))

-- A step of a task that has nobody to close.
quiet-AllFates :
    (active : Option ActiveClient) (closed : ℕ → Bool) (tasks : ℕ → Phase) (n : ℕ) (phase : Phase)
    → ((i : ℕ) → served_id phase ≡ some i → served_id (tasks n) ≡ some i)
    → (IsReplacing (tasks n) → ⊥)
    → AllFates active closed tasks
    → AllFates active closed (set n phase tasks)
quiet-AllFates active closed tasks n phase keeps quiet h m i e =
    cases (h m i (ground (arith, keeps i)))
  where
    cases : Fate active closed tasks m i → Fate active closed (set n phase tasks) m i
    cases (is_active a) = is_active a
    cases (is_closed c) = is_closed c
    cases (is_displaced u j r) = is_displaced u j (other (u == n) refl)
      where
        other :
            (same : Bool)
            → (u == n) ≡ same
            → (if same then phase else tasks u) ≡ replacing j (some (client i m))
        other true e = absurd (quiet (j, client i m, ap tasks (sym ((==_iff u n).0 e)) ∙ r))
        other false e = r

replace-AllFates :
    (s : Server) (n id : ℕ)
    → s.tasks n ≡ numbered id
    → AllFates s.active s.closed s.tasks
    → let t = replace s n id in AllFates t.active t.closed t.tasks
unfolding replace
replace-AllFates s n id e h m i r = cases (m == n) refl r
  where
    kept :
        Fate s.active s.closed s.tasks m i
        → Fate (some (client id n)) s.closed (set n (replacing id s.active) s.tasks) m i
    kept (is_active a) = is_displaced n id (ground arith)
    kept (is_closed c) = is_closed c
    kept (is_displaced u j q) = is_displaced u j (ground arith)

    cases :
        (own : Bool)
        → (m == n) ≡ own
        → served_id (if own then replacing id s.active else s.tasks m) ≡ some i
        → Fate (some (client id n)) s.closed (set n (replacing id s.active) s.tasks) m i
    cases true o r = is_active (unfold served_id in ground arith)
    cases false o r = kept (h m i r)

abbrev AfterClose : Server → ℕ → ℕ → ActiveClient → ℕ → ℕ → Type 0
AfterClose s n id previous =
    Fate s.active (set previous.connection true s.closed) (set n (serving id) s.tasks)

close-AllFates :
    (s : Server) (n id : ℕ) (previous : ActiveClient)
    → s.tasks n ≡ replacing id (some previous)
    → AllFates s.active s.closed s.tasks
    → AllFates s.active (set previous.connection true s.closed) (set n (serving id) s.tasks)
unfolding served_id
close-AllFates s n id previous e h m i r = kept (h m i (ground arith))
  where
    kept : Fate s.active s.closed s.tasks m i → AfterClose s n id previous m i
    kept (is_active a) = is_active a
    kept (is_closed c) = is_closed (ground arith)
    kept (is_displaced u j q) = cases (u == n) refl
      where
        cases : (own : Bool) → (u == n) ≡ own → AfterClose s n id previous m i
        cases true o =
            is_closed
              (let f : s.tasks n ≡ replacing j (some (client i m)) = ground arith in ground arith)
        cases false o = is_displaced u j (ground arith)

close_previous-AllFates :
    (s : Server) (n id : ℕ) (previous : Option ActiveClient)
    → s.tasks n ≡ replacing id previous
    → AllFates s.active s.closed s.tasks
    → let t = close_previous s n id previous in AllFates t.active t.closed t.tasks
unfolding close_previous
close_previous-AllFates s n id none e h =
    quiet-AllFates s.active s.closed s.tasks n (serving id)
      (λ i r. unfold served_id in ground arith) (λ r. ground arith) h
close_previous-AllFates s n id (some previous) e h = close-AllFates s n id previous e h

served-numbered : (phase : Phase) (i : ℕ) → served_id phase ≡ some i → id_of phase ≡ some i
unfolding served_id id_of
served-numbered (replacing id previous) i e = e
served-numbered (serving id) i e = e
served-numbered (numbered id) i e = cc
served-numbered (ended client_id) i e = cc
served-numbered absent i e = cc
served-numbered authenticating i e = cc
served-numbered benching i e = cc
served-numbered admitted i e = cc
served-numbered finished i e = cc

-- Cleaning up behind one task leaves the slot to another task that is served.
not_cleared :
    (s : Server) (n id m i : ℕ)
    → s.tasks n ≡ ended (some id)
    → IsNumbered s.tasks s.next_client_id
    → served_id (s.tasks m) ≡ some i
    → s.active ≡ some (client i m)
    → should_clear s.active id ≡ false
unfolding should_clear
not_cleared s n id m i e k r a = rw a (cases (i == id) refl)
  where
    cases : (same : Bool) → (i == id) ≡ same → (i == id) ≡ false
    cases false o = o
    cases true o =
        let own : m ≡ n =
          k.unique m n i (served-numbered (s.tasks m) i r) (unfold id_of in ground arith) in
        absurd (unfold served_id in ground arith)

clean_up-AllFates :
    (s : Server) (n : ℕ) (client_id : Option ℕ)
    → s.tasks n ≡ ended client_id
    → IsNumbered s.tasks s.next_client_id
    → AllFates s.active s.closed s.tasks
    → let t = clean_up s n client_id in AllFates t.active t.closed t.tasks
unfolding clean_up
clean_up-AllFates s n none e k h m i r =
    quiet-AllFates s.active s.closed s.tasks n finished (λ i r. unfold served_id in ground arith)
      (λ r. ground arith) h m i r
clean_up-AllFates s n (some id) e k h m i r = kept later
  where
    later : Fate s.active s.closed (set n finished s.tasks) m i
    later =
        quiet-AllFates s.active s.closed s.tasks n finished
          (λ i r. unfold served_id in ground arith) (λ r. ground arith) h m i r

    kept :
        Fate s.active s.closed (set n finished s.tasks) m i
        → Fate
            (if should_clear s.active id then none else s.active)
            s.closed
            (set n finished s.tasks)
            m
            i
    kept (is_active a) =
        is_active (rw (not_cleared s n id m i e k (unfold served_id in ground arith) a) a)
    kept (is_closed c) = is_closed c
    kept (is_displaced u j q) = is_displaced u j q

after_auth-served :
    (mode : Option AuthMode) (t : VpnTransportMode) (max : Option ℕ) (mtu : ℕ)
    → served_id (after_auth mode t max mtu) ≡ none
unfolding served_id after_auth
after_auth-served none t max mtu = refl
after_auth-served (some (bench d n p g)) t max mtu = refl
after_auth-served (some vpn) stream max mtu = refl
after_auth-served (some vpn) datagram max mtu = ground arith

-- Every step keeps it so that each admitted client is the active one, is closed, or is about to be.
pub AllFates-Step :
    {s t : Server}
    → Step s t
    → IsNumbered s.tasks s.next_client_id
    → AllFates s.active s.closed s.tasks
    → AllFates t.active t.closed t.tasks
AllFates-Step {s} (accept n e) k h =
    quiet-AllFates s.active s.closed s.tasks n authenticating
      (λ i r. unfold served_id in ground arith) (λ r. ground arith) h
AllFates-Step {s} (authenticated n mode t max mtu e) k h =
    quiet-AllFates s.active s.closed s.tasks n (after_auth mode t max mtu)
      (λ i r. ground (arith, after_auth-served mode t max mtu)) (λ r. ground arith) h
AllFates-Step {s} (bench_ends n e) k h =
    quiet-AllFates s.active s.closed s.tasks n (ended none)
      (λ i r. unfold served_id in ground arith) (λ r. ground arith) h
AllFates-Step {s} (id_taken n e) k h =
    unfold take_id in
    quiet-AllFates s.active s.closed s.tasks n (numbered s.next_client_id)
      (λ i r. unfold served_id in ground arith) (λ r. ground arith) h
AllFates-Step {s} (replaced n id e) k h = replace-AllFates s n id e h
AllFates-Step {s} (previous_closed n id previous e) k h =
    close_previous-AllFates s n id previous e h
AllFates-Step {s} (pumps_end n id e) k h =
    quiet-AllFates s.active s.closed s.tasks n (ended (some id))
      (λ i r. unfold served_id in ground arith) (λ r. ground arith) h
AllFates-Step {s} (cleaned_up n client_id e) k h = clean_up-AllFates s n client_id e k h
