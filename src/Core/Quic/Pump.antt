-- ===== src/Core/Quic/Pump.antt =====
-- crates/litevpn-core/src/quic.rs: the four pumps. One turn of a loop sees what the tunnel device and
-- the connection answer in it; a run is the list of its turns, and what it did is its log.
pub mod Datagram
pub mod Tunnel
pub mod Delivery
use rust_vpn.Prelude.{
  ℕ, zero, suc, ◌+◌, ◌<◌, ◌≡◌, not, ◌||◌, Bool, true, false, List, [], ◌∷◌, ◌++◌, Option, none,
  some, Result, ok, err, ltb, ◌==◌, if◌then◌else◌, length, take,
}
use rust_vpn.Core.Quic.Backlog.{
  DatagramBacklog, Round, Waited, returned, connection_closed, waiting, queued,
}
use rust_vpn.Core.Quic.Frame.{Read, FrameError, write_stream_packet, read_stream_packet}
use rust_vpn.Core.Quic.Pacer.{Float, EgressPacer, Observed, record_and_wait}
use rust_vpn.Text.Utf8.{Bytes}

-- The outer `select!`: a packet from the device, its error, or the end of the connection.
pub data DeviceRead : Type 0 where
  received : Bytes → DeviceRead
  receive_failed : DeviceRead
  closed_meanwhile : DeviceRead

-- Why a pump is over; `running` where its turns end before it does, `blocked` where it still waits for
-- the backlog then.
pub data Stop : Type 0 where
  running blocked : Stop
  device_failed closed_waiting send_failed closed_in_backlog : Stop
  frame_failed : FrameError → Stop
  partial_write : Stop
  stream_finished : Stop

pub record Turn : Type 0 where
  pub device : DeviceRead
  pub max_datagram_size : Option ℕ
  pub sends : Bool
  pub rounds : List Round
  pub seen : Observed

-- `max_datagram_size()` is known and smaller than the packet.
unfoldable pub is_oversized : Option ℕ → ℕ → Bool
is_oversized none n = false
is_oversized (some max) n = ltb max n

-- The variables of `pump_tun_to_quic`, and the datagrams that it has sent.
pub record DatagramPump (F : Type 0) : Type 0 where
  pub pacer : EgressPacer F
  pub backlog : DatagramBacklog
  pub sent : List Bytes

-- The variables of `pump_tun_to_stream`, and the bytes that it has written.
pub record StreamPump (F : Type 0) : Type 0 where
  pub pacer : EgressPacer F
  pub written : Bytes

module _ {F : Type 0} (f : Float F) where
  -- Behind `datagram_backlog.queued`: only a normal return goes on to the pacer and the next turn.
  after_queued : DatagramPump F → Waited → DatagramPump F × Stop → DatagramPump F × Stop
  after_queued p (returned done) rest = rest
  after_queued p connection_closed rest = (p, closed_in_backlog)
  after_queued p waiting rest = (p, blocked)

  -- The state behind `send_datagram_wait` and `queued`.
  queue_packet : DatagramPump F → Bytes → Turn → DatagramPump F × Waited
  queue_packet p packet t =
      let (backlog, waited) = queued p.backlog t.rounds in
      (record p { backlog = backlog; sent = p.sent ++ packet ∷ [] }, waited)

  pace_packet : DatagramPump F → Bytes → Turn → DatagramPump F
  pace_packet p packet t = record p {
    pacer = (record_and_wait f (length packet) true t.seen p.pacer).0;
  }

  -- A packet that was read, `next` being the turns that follow.
  send_datagram :
      DatagramPump F
      → Turn
      → Bytes
      → (DatagramPump F → DatagramPump F × Stop)
      → DatagramPump F × Stop
  send_datagram p t packet next =
      let skip = next p in
      let (p', waited) = queue_packet p packet t in
      let go = after_queued p' waited (next (pace_packet p' packet t)) in
      if length packet == 0
      then skip
      else if is_oversized t.max_datagram_size (length packet)
      then skip
      else if t.sends
      then go
      else (p, send_failed)

  on_datagram_turn :
      DatagramPump F
      → Turn
      → DeviceRead
      → (DatagramPump F → DatagramPump F × Stop)
      → DatagramPump F × Stop
  on_datagram_turn p t receive_failed next = (p, device_failed)
  on_datagram_turn p t closed_meanwhile next = (p, closed_waiting)
  on_datagram_turn p t (received packet) next = send_datagram p t packet next

  -- The loop of `pump_tun_to_quic`.
  unfoldable pub pump_tun_to_quic : DatagramPump F → List Turn → DatagramPump F × Stop
  unfolding send_datagram on_datagram_turn after_queued queue_packet pace_packet
  pump_tun_to_quic p [] = (p, running)
  pump_tun_to_quic p (t ∷ ts) = on_datagram_turn p t t.device (λ p'. pump_tun_to_quic p' ts)

  -- `write_stream_packet` with the two-byte header, and the pacer behind it.
  send_framed :
      StreamPump F
      → Bytes
      → Turn
      → Result FrameError Bytes
      → (StreamPump F → StreamPump F × Stop)
      → StreamPump F × Stop
  send_framed p packet t (err e) next = (p, frame_failed e)
  send_framed p packet t (ok bytes) next =
      let go = next (record {
        pacer = (record_and_wait f (length packet) true t.seen p.pacer).0;
        written = p.written ++ bytes;
      }) in
      if t.sends then go else (p, send_failed)

  on_stream_turn :
      StreamPump F → Turn → DeviceRead → (StreamPump F → StreamPump F × Stop) → StreamPump F × Stop
  on_stream_turn p t receive_failed next = (p, device_failed)
  on_stream_turn p t closed_meanwhile next = (p, closed_waiting)
  on_stream_turn p t (received packet) next =
      let skip = next p in
      let go = send_framed p packet t (write_stream_packet 2 packet) next in
      if length packet == 0 then skip else go

  -- The loop of `pump_tun_to_stream`.
  unfoldable pub pump_tun_to_stream : StreamPump F → List Turn → StreamPump F × Stop
  unfolding send_framed on_stream_turn write_stream_packet
  pump_tun_to_stream p [] = (p, running)
  pump_tun_to_stream p (t ∷ ts) = on_stream_turn p t t.device (λ p'. pump_tun_to_stream p' ts)

-- `device.send(packet)`, given what was written before: the bytes that it has written of the packet, or
-- `none` for an error. The log has what the device has taken of each packet.
module _ (send : List Bytes → Bytes → Option ℕ) where
  deliver : List Bytes → Bytes → Option ℕ → (List Bytes → List Bytes × Stop) → List Bytes × Stop
  deliver log packet none next = (log, device_failed)
  deliver log packet (some written) next =
      let go = next (log ++ packet ∷ []) in
      if written == length packet then go else (log ++ take written packet ∷ [], partial_write)

  -- The loop of `pump_quic_to_tun`: `none` is an error of `read_datagram`.
  unfoldable pub pump_quic_to_tun : List Bytes → List (Option Bytes) → List Bytes × Stop
  unfolding deliver
  pump_quic_to_tun log [] = (log, running)
  pump_quic_to_tun log (none ∷ ds) = (log, closed_waiting)
  pump_quic_to_tun log (some packet ∷ ds) =
      deliver log packet (send log packet) (λ log'. pump_quic_to_tun log' ds)

  module _ {S : Type 0} (read : ℕ → S → Read × S) where
    -- What `pump_stream_to_tun` does with one answer of `read_stream_packet`.
    after_read :
        List Bytes
        → Result FrameError (Option Bytes)
        → (List Bytes → List Bytes × Stop)
        → List Bytes × Stop
    after_read log (err e) next = (log, frame_failed e)
    after_read log (ok none) next = (log, stream_finished)
    after_read log (ok (some packet)) next =
        let skip = next log in
        let go = deliver log packet (send log packet) next in
        if length packet == 0 then skip else go

    -- The loop of `pump_stream_to_tun`, with fuel for the packets on the stream.
    pub pump_stream_to_tun : ℕ → ℕ → List Bytes → S → List Bytes × Stop
    pump_stream_to_tun zero max_packet_bytes log s = (log, running)
    pump_stream_to_tun (suc fuel) max_packet_bytes log s =
        let (answer, s') = read_stream_packet read max_packet_bytes s in
        after_read log answer (λ log'. pump_stream_to_tun fuel max_packet_bytes log' s')
