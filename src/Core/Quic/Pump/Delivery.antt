-- ===== src/Core/Quic/Pump/Delivery.antt =====
-- crates/litevpn-core/src/quic.rs: the datagram pumps of the two ends together. The network between them
-- loses datagrams and changes their order.
use rust_vpn.Prelude.{
  ◌≢◌, take, ℕ, ◌≡◌, refl, sym, ap, ◌∙◌, subst, Bool, if◌then◌else◌, true, false, List, [], ◌∷◌,
  ◌++◌, Option, none, some, append-nil, append_assoc, ◌==◌, length, ==_refl,
}
use mathlib.Core.List.{Subperm, sublist-append_left}
use mathlib.Core.List.Sublist
use mathlib.Core.List.Subperm
use rust_vpn.Core.Quic.Backlog.Bound.{IsBounded}
use rust_vpn.Core.Quic.Pacer.{Float}
use rust_vpn.Core.Quic.Pump.{
  Stop, running, partial_write, Turn, DatagramPump, pump_tun_to_quic, deliver, pump_quic_to_tun,
}
use rust_vpn.Core.Quic.Pump.Datagram.{forwarded, pump_tun_to_quic-IsForwarding}
use rust_vpn.Text.Utf8.{Bytes}

-- The datagrams that `read_datagram` answers, up to its error.
abbrev pub arrived : List (Option Bytes) → List Bytes
arrived [] = []
arrived (none ∷ ds) = []
arrived (some packet ∷ ds) = packet ∷ arrived ds

-- What `read_datagram` answers where the datagrams arrive one after the other.
abbrev pub answers : List Bytes → List (Option Bytes)
answers [] = []
answers (packet ∷ packets) = some packet ∷ answers packets

module _ (send : List Bytes → Bytes → Option ℕ) where
  -- The first list is the start of the second, unless its last packet was written in part.
  abbrev IsStart : List Bytes × Stop → List Bytes → Type 0
  IsStart r ys = r.1 ≢ partial_write → (rest : List Bytes) × (ys ≡ r.0 ++ rest)

  deliver-IsStart :
      (log packets : List Bytes) (packet : Bytes) (written : Option ℕ)
      (next : List Bytes → List Bytes × Stop)
      → ((l : List Bytes) → IsStart (next l) (l ++ packets))
      → IsStart (deliver send log packet written next) (log ++ packet ∷ packets)
  unfolding deliver
  deliver-IsStart log packets packet none next h whole = (packet ∷ packets, refl)
  deliver-IsStart log packets packet (some written) next h whole =
      cases (written == length packet) whole
    where
      same : log ++ packet ∷ packets ≡ (log ++ packet ∷ []) ++ packets
      same = sym (append_assoc log (packet ∷ []) packets)

      cases :
          (all : Bool)
          → IsStart
              (if all
                then next (log ++ packet ∷ [])
                else (log ++ take written packet ∷ [], partial_write))
              (log ++ packet ∷ packets)
      cases true whole = let (rest, e) = h (log ++ packet ∷ []) whole in (rest, same ∙ e)
      cases false whole = absurd (whole refl)

  pump_quic_to_tun-IsStart :
      (log : List Bytes) (ds : List (Option Bytes))
      → IsStart (pump_quic_to_tun send log ds) (log ++ arrived ds)
  unfolding pump_quic_to_tun
  pump_quic_to_tun-IsStart log [] whole = ([], refl)
  pump_quic_to_tun-IsStart log (none ∷ ds) whole = ([], refl)
  pump_quic_to_tun-IsStart log (some packet ∷ ds) whole =
      deliver-IsStart log (arrived ds) packet (send log packet) (λ l. pump_quic_to_tun send l ds)
        (λ l. pump_quic_to_tun-IsStart l ds) whole

start-Subperm : {xs ys : List Bytes} (rest : List Bytes) → ys ≡ xs ++ rest → Subperm xs ys
start-Subperm rest e = subst (Subperm _) (sym e) (Sublist.subperm (sublist-append_left _ rest))

-- The way through the tunnel in datagram mode, over a network that loses datagrams or changes their
-- order, but makes none up and doubles none: as long as the device of the second end has written no
-- packet in part, what that end has written to it are packets that were read at the first end, each
-- whole and at most as often as it was read. The first end's pump is a new one, with its backlog within
-- the bound.
pub datagrams_deliver :
    {F : Type 0} (f : Float F) (send : List Bytes → Bytes → Option ℕ) (p : DatagramPump F)
    (ts : List Turn) (ds : List (Option Bytes))
    → IsBounded p.backlog
    → p.sent ≡ []
    → Subperm (arrived ds) (pump_tun_to_quic f p ts).0.sent
    → (pump_quic_to_tun send [] ds).1 ≢ partial_write
    → Subperm (pump_quic_to_tun send [] ds).0 (forwarded ts)
datagrams_deliver f send p ts ds b e n whole =
    let (rest, written) = pump_quic_to_tun-IsStart send [] ds whole in
    let h = pump_tun_to_quic-IsForwarding f p ts b in
    Subperm.trans (start-Subperm rest written) (
      Subperm.trans n
        (start-Subperm h.unsent (ap (λ (l : List Bytes). l ++ forwarded ts) (sym e) ∙ h.in_order)))

module _ (send : List Bytes → Bytes → Option ℕ) where
  pump_quic_to_tun-all :
      (log packets : List Bytes)
      → ((l : List Bytes) (p : Bytes) → send l p ≡ some (length p))
      → pump_quic_to_tun send log (answers packets) ≡ (log ++ packets, running)
  unfolding pump_quic_to_tun deliver
  pump_quic_to_tun-all log [] whole = rw append-nil
  pump_quic_to_tun-all log (packet ∷ packets) whole =
      rw (whole, ==_refl, pump_quic_to_tun-all (log ++ packet ∷ []) packets whole, append_assoc)

-- Over a network that delivers each datagram in order, and with a device that takes each packet whole,
-- the other end writes exactly the packets that a running pump was to forward, in order, and goes on. The first
-- end's pump is a new one, with its backlog within the bound.
pub network_delivers :
    {F : Type 0} (f : Float F) (send : List Bytes → Bytes → Option ℕ) (p : DatagramPump F)
    (ts : List Turn)
    → IsBounded p.backlog
    → p.sent ≡ []
    → (pump_tun_to_quic f p ts).1 ≡ running
    → ((l : List Bytes) (q : Bytes) → send l q ≡ some (length q))
    → pump_quic_to_tun send [] (answers (pump_tun_to_quic f p ts).0.sent) ≡ (forwarded ts, running)
network_delivers f send p ts b e r whole =
    let h = pump_tun_to_quic-IsForwarding f p ts b in
    let sent : (pump_tun_to_quic f p ts).0.sent ≡ forwarded ts =
      sym (append-nil _)
      ∙ ap (λ (l : List Bytes). (pump_tun_to_quic f p ts).0.sent ++ l) (sym (h.complete r))
      ∙ sym h.in_order
      ∙ ap (λ (l : List Bytes). l ++ forwarded ts) e in
    pump_quic_to_tun-all send [] _ whole ∙ ap (λ (l : List Bytes). (l, running)) sent
