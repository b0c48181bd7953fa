-- ===== src/Core/Quic/Pump/Tunnel.antt =====
-- crates/litevpn-core/src/quic.rs: the stream pumps of the two ends together.
use rust_vpn.Prelude.{
  ℕ, zero, suc, ◌<◌, ◌≤◌, ◌≡◌, refl, sym, ap, ◌∙◌, Bool, true, false, List, [], ◌∷◌, ◌++◌, Option,
  none, some, Result, ok, err, append-nil, append_assoc, arith, ◌==◌, if◌then◌else◌, length, All,
}
use rust_vpn.Core.Quic.Frame.{
  Read, FrameError, Delivers, max_u16, to_be_bytes, write_stream_packet, read_stream_packet,
}
use rust_vpn.Core.Quic.Frame.RoundTrip.{
  write_stream_packet-ok, read-write_stream_packet, read_stream_packet-end,
}
use rust_vpn.Core.Quic.Pacer.{Float, EgressPacer, record_and_wait}
use rust_vpn.Core.Quic.Pump.{
  DeviceRead, received, receive_failed, closed_meanwhile, Stop, running, stream_finished,
  send_failed, Turn, StreamPump, send_framed, on_stream_turn, pump_tun_to_stream, deliver,
  after_read, pump_stream_to_tun,
}
use rust_vpn.Text.Utf8.{Bytes}

with_packet : DeviceRead → List Bytes → List Bytes
with_packet (received packet) rest = if length packet == 0 then rest else packet ∷ rest
with_packet receive_failed rest = rest
with_packet closed_meanwhile rest = rest

-- The packets that were read from the device, without the empty ones.
unfoldable pub read_packets : List Turn → List Bytes
unfolding with_packet
read_packets [] = []
read_packets (t ∷ ts) = with_packet t.device (read_packets ts)

-- Packets one behind the other, each behind its length.
pub frames : List Bytes → Bytes
frames [] = []
frames (p ∷ ps) = (to_be_bytes (length p) ++ p) ++ frames ps

abbrev pub IsPacket : Bytes → Type 0
IsPacket p = (0 < length p) × (length p ≤ max_u16)

frames_cons :
    (written packet : Bytes) (packets : List Bytes)
    → written ++ ((to_be_bytes (length packet) ++ packet) ++ frames packets)
      ≡ written ++ frames (packet ∷ packets)
unfolding frames
frames_cons written packet packets = refl

module _ {F : Type 0} where
  -- A pump that still runs has written the packets as frames.
  abbrev IsWriting : Bytes → List Bytes → StreamPump F × Stop → Type 0
  IsWriting written packets r =
      r.1 ≡ running → (r.0.written ≡ written ++ frames packets) × All IsPacket packets

module _ {F : Type 0} (f : Float F) where
  send_framed-IsWriting :
      (p : StreamPump F) (t : Turn) (packet : Bytes) (packets : List Bytes)
      (next : StreamPump F → StreamPump F × Stop) (framed : Result FrameError Bytes)
      → write_stream_packet 2 packet ≡ framed
      → 0 < length packet
      → ((q : StreamPump F) → IsWriting q.written packets (next q))
      → IsWriting p.written (packet ∷ packets) (send_framed f p packet t framed next)
  unfolding send_framed
  send_framed-IsWriting p t packet packets next (err e) w h k r = absurd (ground arith)
  send_framed-IsWriting p t packet packets next (ok bytes) w h k r = go t.sends r
    where
      q : StreamPump F
      q = record {
        pacer = (record_and_wait f (length packet) true t.seen p.pacer).0;
        written = p.written ++ bytes;
      }

      go :
          (sends : Bool)
          → (if sends then next q else (p, send_failed)).1 ≡ running
          → ((if sends then next q else (p, send_failed)).0.written
              ≡ p.written ++ frames (packet ∷ packets))
            × All IsPacket (packet ∷ packets)
      go true r =
          let (same, rest) = k q r in
          let (framed, small) = write_stream_packet-ok 2 packet bytes w in
          (
            same
                ∙ append_assoc p.written bytes (frames packets)
                ∙ ap (λ (b : Bytes). p.written ++ (b ++ frames packets)) framed
                ∙ frames_cons p.written packet packets,
            ((h, small), rest),
          )
      go false r = absurd (ground arith)

  on_stream_turn-IsWriting :
      (p : StreamPump F) (t : Turn) (d : DeviceRead) (packets : List Bytes)
      (next : StreamPump F → StreamPump F × Stop)
      → ((q : StreamPump F) → IsWriting q.written packets (next q))
      → IsWriting p.written (with_packet d packets) (on_stream_turn f p t d next)
  unfolding on_stream_turn with_packet
  on_stream_turn-IsWriting p t receive_failed packets next k r = absurd (ground arith)
  on_stream_turn-IsWriting p t closed_meanwhile packets next k r = absurd (ground arith)
  on_stream_turn-IsWriting p t (received packet) packets next k r =
      cases (length packet == 0) refl r
    where
      sent : StreamPump F × Stop
      sent = send_framed f p packet t (write_stream_packet 2 packet) next

      cases :
          (empty : Bool)
          → (length packet == 0) ≡ empty
          → (if empty then next p else sent).1 ≡ running
          → ((if empty then next p else sent).0.written
              ≡ p.written ++ frames (if empty then packets else packet ∷ packets))
            × All IsPacket (if empty then packets else packet ∷ packets)
      cases true e r = k p r
      cases false e r = send_framed-IsWriting p t packet packets next _ refl (ground arith) k r

  pump_tun_to_stream-IsWriting :
      (p : StreamPump F) (ts : List Turn)
      → IsWriting p.written (read_packets ts) (pump_tun_to_stream f p ts)
  unfolding pump_tun_to_stream read_packets
  pump_tun_to_stream-IsWriting p [] r = unfold frames in (sym (append-nil p.written), tt)
  pump_tun_to_stream-IsWriting p (t ∷ ts) r =
      on_stream_turn-IsWriting p t t.device (read_packets ts) (λ q. pump_tun_to_stream f q ts)
        (λ q. pump_tun_to_stream-IsWriting q ts) r

write_small :
    (packet : Bytes)
    → length packet ≤ max_u16
    → write_stream_packet 2 packet ≡ ok (to_be_bytes (length packet) ++ packet)
unfolding write_stream_packet
write_small packet h = ground arith

module _ (send : List Bytes → Bytes → Option ℕ) {S : Type 0} (read : ℕ → S → Read × S)
    (pending : S → Bytes) (d : Delivers read pending) where
  after_read-packet :
      (log : List Bytes) (packet : Bytes) (next : List Bytes → List Bytes × Stop)
      → 0 < length packet
      → send log packet ≡ some (length packet)
      → after_read send read log (ok (some packet)) next ≡ next (log ++ packet ∷ [])
  unfolding after_read deliver
  after_read-packet log packet next h e = ground arith

  pump_step :
      (fuel m : ℕ) (log : List Bytes) (s s' : S) (answer : Result FrameError (Option Bytes))
      → read_stream_packet read m s ≡ (answer, s')
      → pump_stream_to_tun send read (suc fuel) m log s
        ≡ after_read send read log answer (λ log'. pump_stream_to_tun send read fuel m log' s')
  pump_step fuel m log s s' answer e = unfold_step ∙ rw e
    where
      unfold_step :
          pump_stream_to_tun send read (suc fuel) m log s
          ≡ after_read send read log
              (read_stream_packet read m s).0
              (λ log'. pump_stream_to_tun send read fuel m log' (read_stream_packet read m s).1)
      unfold_step = unfold pump_stream_to_tun in refl

  pump_stream_to_tun-frames :
      (fuel max_packet_bytes : ℕ) (packets log : List Bytes) (s : S)
      → ((l : List Bytes) (p : Bytes) → send l p ≡ some (length p))
      → pending s ≡ frames packets
      → All IsPacket packets
      → All (λ p. length p ≤ max_packet_bytes) packets
      → length packets < fuel
      → pump_stream_to_tun send read fuel max_packet_bytes log s ≡ (log ++ packets, stream_finished)
  pump_stream_to_tun-frames zero m packets log s a p h fits l = absurd (omega arith)
  pump_stream_to_tun-frames (suc fuel) m [] log s a p h fits l =
      let (s', run, _) = read_stream_packet-end read pending d m s (unfold frames in p) in
      pump_step fuel m log s s' (ok none) run ∙ (unfold after_read in rw append-nil)
  pump_stream_to_tun-frames (suc fuel) m (q ∷ qs) log s a p h fits l =
      let (s', run, left) =
        read-write_stream_packet read pending d 2 m q (to_be_bytes (length q) ++ q) (frames qs) s
          (write_small q h.0.1) fits.0 (unfold frames in p) in
      pump_step fuel m log s s' (ok (some q)) run
      ∙ after_read-packet log q (λ log'. pump_stream_to_tun send read fuel m log' s') h.0.0
          (a log q)
      ∙ pump_stream_to_tun-frames fuel m qs (log ++ q ∷ []) s' a left h.1 fits.1 (omega arith)
      ∙ ap (λ (r : List Bytes). (r, stream_finished)) (append_assoc log (q ∷ []) qs)

-- The way through the tunnel in stream mode: as long as one end's pump runs, the other end writes to its
-- device exactly the packets that were read at the first end, each whole, in order, with none lost or
-- doubled and only the empty ones left out, and then ends without an error when the stream does. It
-- needs a buffer for the longest packet, a device that takes each packet whole, and fuel for one round
-- a packet and one more.
pub tunnel_delivers :
    {F : Type 0} (f : Float F) (send : List Bytes → Bytes → Option ℕ) {S : Type 0}
    (read : ℕ → S → Read × S) (pending : S → Bytes)
    → Delivers read pending
    → (pacer : EgressPacer F) (ts : List Turn) (fuel max_packet_bytes : ℕ) (s : S)
    → ((l : List Bytes) (p : Bytes) → send l p ≡ some (length p))
    → let sender = pump_tun_to_stream f (record { pacer = pacer; written = [] }) ts in
      sender.1 ≡ running
      → pending s ≡ sender.0.written
      → All (λ p. length p ≤ max_packet_bytes) (read_packets ts)
      → length (read_packets ts) < fuel
      → pump_stream_to_tun send read fuel max_packet_bytes [] s ≡ (read_packets ts, stream_finished)
tunnel_delivers f send read pending d pacer ts fuel m s a r p fits l =
    let (written, packets) =
      pump_tun_to_stream-IsWriting f (record { pacer = pacer; written = [] }) ts r in
    pump_stream_to_tun-frames send read pending d fuel m (read_packets ts) [] s a (p ∙ written)
      packets fits l
