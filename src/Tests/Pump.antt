-- ===== src/Tests/Pump.antt =====
-- The pumps at concrete inputs.
use rust_vpn.Prelude.{ℕ, ◌≡◌, refl, sym, subst, true, List, [], ◌∷◌, Option, some, arith, length}
use mathlib.Core.List.{Subperm}
use mathlib.Core.List.Perm
use rust_vpn.Core.Quic.Backlog.{queued}
use rust_vpn.Core.Quic.Pacer.{EgressPacer, new}
use rust_vpn.Core.Quic.Pump.{
  Turn, received, stream_finished, DatagramPump, is_oversized, pump_tun_to_quic, pump_tun_to_stream,
  pump_stream_to_tun, pump_quic_to_tun, running,
}
use rust_vpn.Core.Quic.Pump.Datagram.{IsForwarding, forwarded, pump_tun_to_quic-IsForwarding}
use rust_vpn.Core.Quic.Pump.Delivery.{arrived, answers, datagrams_deliver, network_delivers}
use rust_vpn.Core.Quic.Pump.Tunnel.{read_packets, tunnel_delivers}
use rust_vpn.Tests.Frame.{byte_read, byte_delivers}
use rust_vpn.Tests.Pacing.{full, sent_round, idle_round, fixed, lossy}
use rust_vpn.Text.Utf8.{Bytes}

abbrev pub turn : Bytes → Turn
turn packet = record {
  device = received packet;
  max_datagram_size = some 2;
  sends = true;
  rounds = idle_round ∷ sent_round ∷ [];
  seen = lossy;
}

-- A packet, an empty one, one of three bytes, and another packet.
abbrev turns : List Turn
turns = turn (0x45 ∷ 7 ∷ []) ∷ turn [] ∷ turn (0x45 ∷ 8 ∷ 9 ∷ []) ∷ turn (0x60 ∷ []) ∷ []

abbrev pub pacer : EgressPacer ℕ
pacer = new fixed 0 0 1300 true

abbrev start : DatagramPump ℕ
start = record { pacer = pacer; backlog = record full { queued_datagrams = 0 }; sent = [] }

pump_tun_to_quic-IsForwarding_example :
    let r = pump_tun_to_quic fixed start turns in IsForwarding start (forwarded turns) r.0 r.1
pump_tun_to_quic-IsForwarding_example =
    pump_tun_to_quic-IsForwarding fixed start turns (omega arith)

forwarded_test : forwarded turns ≡ (0x45 ∷ 7 ∷ []) ∷ (0x60 ∷ []) ∷ []
unfolding forwarded is_oversized
forwarded_test = refl

takes_all : List Bytes → Bytes → Option ℕ
takes_all log packet = some (length packet)

tunnel_delivers_example :
    pump_stream_to_tun takes_all byte_read 4 1364 []
      (0 ∷ 2 ∷ 0x45 ∷ 7 ∷ 0 ∷ 3 ∷ 0x45 ∷ 8 ∷ 9 ∷ 0 ∷ 1 ∷ 0x60 ∷ [])
    ≡ (read_packets turns, stream_finished)
tunnel_delivers_example =
    tunnel_delivers fixed takes_all byte_read (λ s. s) byte_delivers pacer turns 4 1364
      (0 ∷ 2 ∷ 0x45 ∷ 7 ∷ 0 ∷ 3 ∷ 0x45 ∷ 8 ∷ 9 ∷ 0 ∷ 1 ∷ 0x60 ∷ [])
      (λ l p. unfold takes_all in refl) (unfold pump_tun_to_stream in refl)
      (unfold pump_tun_to_stream in refl) (unfold read_packets in omega arith)
      (unfold read_packets in omega arith)

-- The two datagrams that the pump sends, the other way round.
abbrev swapped : List (Option Bytes)
swapped = some (0x60 ∷ []) ∷ some (0x45 ∷ 7 ∷ []) ∷ []

sent_test : (pump_tun_to_quic fixed start turns).0.sent ≡ (0x45 ∷ 7 ∷ []) ∷ (0x60 ∷ []) ∷ []
unfolding pump_tun_to_quic is_oversized queued
sent_test = refl

datagrams_deliver_example : Subperm (pump_quic_to_tun takes_all [] swapped).0 (forwarded turns)
datagrams_deliver_example =
    datagrams_deliver fixed takes_all start turns swapped (omega arith) refl
      (subst (Subperm (arrived swapped)) (sym sent_test) (Perm.subperm (Perm.swap _ _ [])))
      (unfold pump_quic_to_tun takes_all in λ e. ground arith)

network_delivers_example :
    pump_quic_to_tun takes_all [] (answers (pump_tun_to_quic fixed start turns).0.sent)
    ≡ (forwarded turns, running)
network_delivers_example =
    network_delivers fixed takes_all start turns (omega arith) refl
      (unfold pump_tun_to_quic is_oversized queued in refl) (λ l p. unfold takes_all in refl)
