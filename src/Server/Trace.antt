-- ===== src/Server/Trace.antt =====
-- crates/litevpn-server/src/main.rs: the slot of the active client as its users see it. A client takes
-- the slot and leaves it; the numbers, the phases and the closing of connections are forgotten.
use rust_vpn.Prelude.{
  ℕ, ◌≡◌, refl, sym, ap, ◌∙◌, Bool, true, false, Option, none, some, List, [], ◌∷◌, arith, ◌==◌,
  if◌then◌else◌,
}
use rust_vpn.Server.{
  ActiveClient, ended, Server, take_id, replace, close_previous, clean_up, Step, accept,
  authenticated, bench_ends, id_taken, replaced, previous_closed, pumps_end, cleaned_up, Run,
  run_start, run_step, should_clear,
}
use rust_vpn.Server.Active.{IsShort, slot_id, active_client_lives, clean_up_own_slot}

pub data Event : Type 0 where
  took left : ℕ → Event

-- The specification: whoever took the slot last owns it until it leaves. The newest event is first.
unfoldable pub owner : List Event → Option ℕ
owner [] = none
owner (took n ∷ events) = some n
owner (left n ∷ events) = elim (owner events) [
  | none ↦ none
  | some m ↦ if m == n then none else some m
]

-- What a step is to the users of the slot.
unfoldable pub events_of : {s t : Server} → Step s t → List Event → List Event
events_of (replaced n id e) events = took n ∷ events
events_of (cleaned_up n (some id) e) events = left n ∷ events
events_of (cleaned_up n none e) events = events
events_of (accept n e) events = events
events_of (authenticated n mode t max mtu e) events = events
events_of (bench_ends n e) events = events
events_of (id_taken n e) events = events
events_of (previous_closed n id previous e) events = events
events_of (pumps_end n id e) events = events

unfoldable pub trace : {k : ℕ} {s : Server} → Run k s → List Event
unfolding events_of
trace run_start = []
trace (run_step r step) = events_of step (trace r)

-- The client in the slot.
unfoldable pub slot_owner : Option ActiveClient → Option ℕ
slot_owner none = none
slot_owner (some c) = some c.connection

slot_owner-clean_up :
    {k : ℕ} {s : Server} (n id : ℕ) (events : List Event)
    → Run k s
    → IsShort k
    → s.tasks n ≡ ended (some id)
    → slot_owner s.active ≡ owner events
    → slot_owner (clean_up s n (some id)).active ≡ owner (left n ∷ events)
slot_owner-clean_up {s} n id events r l e h = cases s.active refl
  where
    same_id : (c : ActiveClient) → s.active ≡ some c → c.connection ≡ n → c.id ≡ id
    same_id c a o =
        let live : slot_id (s.tasks n) ≡ some c.id =
          ap (λ k. slot_id (s.tasks k)) (sym o) ∙ active_client_lives c r l a in
        unfold slot_id in ground arith

    cases :
        (a : Option ActiveClient)
        → s.active ≡ a
        → slot_owner (clean_up s n (some id)).active ≡ owner (left n ∷ events)
    cases none a = unfold clean_up should_clear slot_owner owner in ground arith
    cases (some c) a = own (c.connection == n) refl
      where
        own :
            (own : Bool)
            → (c.connection == n) ≡ own
            → slot_owner (clean_up s n (some id)).active ≡ owner (left n ∷ events)
        own true o =
            let same : c.id ≡ id = same_id c a (ground arith) in
            unfold clean_up should_clear slot_owner owner in ground arith
        own false o =
            let kept : (clean_up s n (some id)).active ≡ some c =
              clean_up_own_slot n id c r l e a (ground arith) in
            unfold slot_owner owner in ground arith

slot_owner-Step :
    {k : ℕ} {s t : Server} (events : List Event)
    → Run k s
    → IsShort k
    → (step : Step s t) → slot_owner s.active ≡ owner events
    → slot_owner t.active ≡ owner (events_of step events)
unfolding events_of
slot_owner-Step events r l (accept n e) h = h
slot_owner-Step events r l (authenticated n mode t max mtu e) h = h
slot_owner-Step events r l (bench_ends n e) h = h
slot_owner-Step events r l (id_taken n e) h = unfold take_id in h
slot_owner-Step events r l (replaced n id e) h = unfold replace slot_owner owner in refl
slot_owner-Step events r l (previous_closed n id none e) h = unfold close_previous in h
slot_owner-Step events r l (previous_closed n id (some previous) e) h = unfold close_previous in h
slot_owner-Step events r l (pumps_end n id e) h = h
slot_owner-Step events r l (cleaned_up n none e) h = unfold clean_up in h
slot_owner-Step events r l (cleaned_up n (some id) e) h = slot_owner-clean_up n id events r l e h

-- The slot implements its specification: in whatever order the tasks run, its client is the one that
-- took it last, unless that one has left. The code decides by the numbers of the clients, the
-- specification by the clients themselves; the steps are fewer than 64-bit numbers count.
pub slot_refines :
    {k : ℕ} {s : Server} (r : Run k s) → IsShort k → slot_owner s.active ≡ owner (trace r)
unfolding trace
slot_refines run_start l = unfold slot_owner owner in refl
slot_refines (run_step r step) l =
    slot_owner-Step (trace r) r (omega arith) step (slot_refines r (omega arith))
