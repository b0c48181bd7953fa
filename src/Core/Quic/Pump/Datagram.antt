-- ===== src/Core/Quic/Pump/Datagram.antt =====
-- crates/litevpn-core/src/quic.rs: what the two datagram pumps forward.
use rust_vpn.Prelude.{
  ℕ, ◌≡◌, refl, sym, ap, ◌∙◌, Bool, true, false, List, [], ◌∷◌, ◌++◌, Option, append_assoc, arith,
  ◌==◌, if◌then◌else◌, length, not,
}
use rust_vpn.Core.Quic.Backlog.{Waited, returned, connection_closed, waiting}
use rust_vpn.Core.Quic.Backlog.Bound.{IsBounded, queued-IsQueued}
use rust_vpn.Core.Quic.Pacer.{Float}
use rust_vpn.Core.Quic.Pump.{
  DeviceRead, received, receive_failed, closed_meanwhile, Stop, running, send_failed, send_datagram,
  on_datagram_turn, Turn, is_oversized, DatagramPump, after_queued, queue_packet, pace_packet,
  pump_tun_to_quic,
}
use rust_vpn.Text.Utf8.{Bytes}

-- A packet that fits into one datagram at the time, and is not empty.
abbrev pub is_forwarded : Bytes → Option ℕ → Bool
is_forwarded packet max =
    if length packet == 0 then false else not (is_oversized max (length packet))

-- What a turn adds to the packets that are forwarded.
with_packet : Turn → DeviceRead → List Bytes → List Bytes
with_packet t (received packet) rest =
    if is_forwarded packet t.max_datagram_size then packet ∷ rest else rest
with_packet t receive_failed rest = rest
with_packet t closed_meanwhile rest = rest

-- The packets that the tunnel hands to the connection.
unfoldable pub forwarded : List Turn → List Bytes
unfolding with_packet
forwarded [] = []
forwarded (t ∷ ts) = with_packet t t.device (forwarded ts)

sent_one_more :
    (sent sent' packets : List Bytes) (packet : Bytes)
    → sent' ≡ sent ++ packet ∷ []
    → sent ++ packet ∷ packets ≡ sent' ++ packets
sent_one_more sent sent' packets packet e =
    sym (append_assoc sent (packet ∷ []) packets) ∙ ap (λ (l : List Bytes). l ++ packets) (sym e)

module _ {F : Type 0} where
  -- What a pump has sent, against the packets that are to be forwarded.
  pub record IsForwarding (p : DatagramPump F) (packets : List Bytes) (p' : DatagramPump F)
      (stop : Stop) : Type 0 where
    pub unsent : List Bytes
    pub in_order : p.sent ++ packets ≡ p'.sent ++ unsent
    pub complete : stop ≡ running → unsent ≡ []
    pub bounded : stop ≡ running → IsBounded p'.backlog

  -- The turns that follow forward the packets that follow.
  abbrev Continues : (DatagramPump F → DatagramPump F × Stop) → List Bytes → Type 0
  Continues next packets =
      (q : DatagramPump F) → IsBounded q.backlog → IsForwarding q packets (next q).0 (next q).1

module _ {F : Type 0} (f : Float F) where
  after_queued-IsForwarding :
      (p q next : DatagramPump F) (packet : Bytes) (packets : List Bytes) (w : Waited)
      (rest : DatagramPump F × Stop)
      → q.sent ≡ p.sent ++ packet ∷ []
      → next.sent ≡ p.sent ++ packet ∷ []
      → ((b : Bool) → w ≡ returned b → IsForwarding next packets rest.0 rest.1)
      → let r = after_queued f q w rest in IsForwarding p (packet ∷ packets) r.0 r.1
  unfolding after_queued
  after_queued-IsForwarding p q next packet packets (returned b) rest e g h =
      let k = h b refl in
      record {
        unsent = k.unsent;
        in_order = sent_one_more p.sent next.sent packets packet g ∙ k.in_order;
        complete = k.complete;
        bounded = k.bounded;
      }
  after_queued-IsForwarding p q next packet packets connection_closed rest e g h = record {
    unsent = packets;
    in_order = sent_one_more p.sent q.sent packets packet e;
    complete = λ r. cc;
    bounded = λ r. absurd (ground arith);
  }
  after_queued-IsForwarding p q next packet packets waiting rest e g h = record {
    unsent = packets;
    in_order = sent_one_more p.sent q.sent packets packet e;
    complete = λ r. cc;
    bounded = λ r. absurd (ground arith);
  }

  queue_packet-returned :
      (p : DatagramPump F) (packet : Bytes) (t : Turn) (b : Bool)
      → (queue_packet f p packet t).1 ≡ returned b
      → IsBounded (queue_packet f p packet t).0.backlog
  unfolding queue_packet
  queue_packet-returned p packet t true e = (queued-IsQueued p.backlog t.rounds).bounded e
  queue_packet-returned p packet t false e =
      absurd ((queued-IsQueued p.backlog t.rounds).no_timeout e)

  send_datagram-IsForwarding :
      (p : DatagramPump F) (t : Turn) (packet : Bytes) (packets : List Bytes)
      (next : DatagramPump F → DatagramPump F × Stop)
      → IsBounded p.backlog
      → Continues next packets
      → let r = send_datagram f p t packet next in
        IsForwarding p (with_packet t (received packet) packets) r.0 r.1
  unfolding send_datagram with_packet pace_packet
  send_datagram-IsForwarding p t packet packets next h k =
      cases (length packet == 0) (is_oversized t.max_datagram_size (length packet)) t.sends
    where
      q : DatagramPump F
      q = (queue_packet f p packet t).0

      cases :
          (empty over sends : Bool)
          → let r : DatagramPump F × Stop =
              (if empty
                then next p
                else if over
                then next p
                else if sends
                then after_queued f q
                    (queue_packet f p packet t).1
                    (next (pace_packet f q packet t))
                else (p, send_failed)) in
            IsForwarding p
              (if (if empty then false else not over) then packet ∷ packets else packets)
              r.0
              r.1
      cases true over sends = k p h
      cases false true sends = k p h
      cases false false true =
          after_queued-IsForwarding p q (pace_packet f q packet t) packet packets _ _
            (unfold queue_packet in refl) (unfold queue_packet in refl)
            (λ b e. k (pace_packet f q packet t) (queue_packet-returned p packet t b e))
      cases false false false = record {
        unsent = packet ∷ packets;
        in_order = refl;
        complete = λ r. absurd (ground arith);
        bounded = λ r. absurd (ground arith);
      }

  on_datagram_turn-IsForwarding :
      (p : DatagramPump F) (t : Turn) (d : DeviceRead) (packets : List Bytes)
      (next : DatagramPump F → DatagramPump F × Stop)
      → IsBounded p.backlog
      → Continues next packets
      → let r = on_datagram_turn f p t d next in IsForwarding p (with_packet t d packets) r.0 r.1
  unfolding on_datagram_turn
  on_datagram_turn-IsForwarding p t (received packet) packets next h k =
      send_datagram-IsForwarding p t packet packets next h k
  on_datagram_turn-IsForwarding p t receive_failed packets next h k =
      unfold with_packet in
      record {
        unsent = packets;
        in_order = refl;
        complete = λ r. absurd (ground arith);
        bounded = λ r. absurd (ground arith);
      }
  on_datagram_turn-IsForwarding p t closed_meanwhile packets next h k =
      unfold with_packet in
      record {
        unsent = packets;
        in_order = refl;
        complete = λ r. absurd (ground arith);
        bounded = λ r. absurd (ground arith);
      }

  -- The datagrams that the pump sends are packets of the tunnel, each as it was read, in the order in
  -- which they were read, with none left out but the empty ones and those too long for a datagram. As
  -- long as the pump runs it has sent all of them, and the backlog is within its bound.
  pub pump_tun_to_quic-IsForwarding :
      (p : DatagramPump F) (ts : List Turn)
      → IsBounded p.backlog
      → let r = pump_tun_to_quic f p ts in IsForwarding p (forwarded ts) r.0 r.1
  unfolding pump_tun_to_quic forwarded
  pump_tun_to_quic-IsForwarding p [] h = record {
    unsent = [];
    in_order = refl;
    complete = λ e. refl;
    bounded = λ e. h;
  }
  pump_tun_to_quic-IsForwarding p (t ∷ ts) h =
      on_datagram_turn-IsForwarding p t t.device (forwarded ts) (λ q. pump_tun_to_quic f q ts) h
        (λ q b. pump_tun_to_quic-IsForwarding q ts b)
