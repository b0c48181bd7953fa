-- ===== src/Tests/Bench.antt =====
-- The bench of both ends at concrete inputs.
use rust_vpn.Prelude.{
  ℕ, suc, ◌*◌, ◌-◌, ◌^◌, ◌≤◌, ◌≡◌, ◌≢◌, refl, true, List, [], ◌∷◌, arith, ltb, if◌then◌else◌,
}
use rust_vpn.Bench.{Ran, ran, failed, running, Counts, nothing, add_packet, write_failed}
use rust_vpn.Client.Bench.Aggregate.{sum_from}
use rust_vpn.Bench.Datagram.{SendRound, timer, sent, DatagramSend, send_datagrams}
use rust_vpn.Bench.Datagram.Counted.{send_datagrams_counts, send_datagrams_ends}
use rust_vpn.Bench.Stream.{
  FramedWrite, wrote_all, RawWrite, wrote, out_of_time, WriteRound, StreamSend, send_frames,
  send_bytes, receive_bytes,
}
use rust_vpn.Bench.Stream.Raw.{raw_bytes_agree}
use rust_vpn.Client.Bench.Iterations.{
  IsBalanced, run_bench_iterations, run_bench_iterations-IsBalanced,
}
use rust_vpn.Client.Connect.{connected}
use rust_vpn.Core.Quic.Backlog.{queued_until}
use rust_vpn.Core.Quic.Pacer.{EgressPacer, new}
use rust_vpn.Tests.Frame.{byte_read, byte_delivers}
use rust_vpn.Tests.Pacing.{full, idle_round, sent_round, fixed, lossy}
use rust_vpn.Text.Utf8.{Bytes}

abbrev pub value_or : {A : Type 0} → Ran A → A → A
value_or (ran a) b = a
value_or (failed e) b = b
value_or running b = b

abbrev pacer : EgressPacer ℕ
pacer = new fixed 0 0 3 true

abbrev pub begin : StreamSend ℕ
begin = record { counts = nothing; pacer = pacer; written = [] }

abbrev zeros : Bytes
zeros = 0 ∷ 0 ∷ 0 ∷ []

abbrev pub frame_round : ℕ → WriteRound FramedWrite
frame_round now = record { now = now; write = wrote_all; seen = lossy }

-- Two frames before the deadline.
abbrev frame_rounds : List (WriteRound FramedWrite)
frame_rounds = frame_round 1 ∷ frame_round 2 ∷ frame_round 9 ∷ []

abbrev frames_sent : StreamSend ℕ
frames_sent = value_or (send_frames fixed zeros 9 (λ p. ran p) begin frame_rounds) begin

frames_test : frames_sent.counts ≡ record { packets = 2; bytes = 6 }
unfolding send_frames add_packet
frames_test = refl

abbrev raw_rounds : List (WriteRound RawWrite)
raw_rounds =
    record { now = 1; write = wrote 3; seen = lossy }
    ∷ record { now = 2; write = wrote 1; seen = lossy }
    ∷ record { now = 3; write = out_of_time; seen = lossy }
    ∷ []

abbrev bytes_sent : StreamSend ℕ
bytes_sent = value_or (send_bytes fixed zeros 9 begin raw_rounds) begin

raw_bytes_agree_example :
    (c : Counts) × (receive_bytes byte_read 3
        (λ c. ran c)
        nothing
        (0 ∷ 0 ∷ 0 ∷ 0 ∷ [])
        (true ∷ true ∷ true ∷ true ∷ true ∷ [])
      ≡ ran c)
    × (c.bytes ≡ bytes_sent.counts.bytes)
raw_bytes_agree_example =
    raw_bytes_agree fixed zeros 9 pacer bytes_sent raw_rounds byte_read (λ s. s) byte_delivers 3
      (λ c. ran c) (0 ∷ 0 ∷ 0 ∷ 0 ∷ []) (true ∷ true ∷ true ∷ true ∷ true ∷ []) (omega arith)
      (unfold send_bytes in refl) (unfold send_bytes in refl) (unfold send_bytes in tt)

abbrev sender : DatagramSend ℕ
sender = record {
  counts = nothing;
  backlog = record full { queued_datagrams = 0 };
  pacer = pacer;
  datagrams = 0;
}

-- One datagram, and then the timer.
abbrev sends : List SendRound
sends = sent true (idle_round ∷ sent_round ∷ []) lossy ∷ timer ∷ []

abbrev datagrams_sent : DatagramSend ℕ
datagrams_sent = value_or (send_datagrams fixed 1200 6 (λ p. ran p) sender sends) sender

send_datagrams_counts_example :
    (datagrams_sent.counts.bytes ≡ datagrams_sent.counts.packets * 1200)
    × (datagrams_sent.counts.packets ≤ datagrams_sent.datagrams)
    × (datagrams_sent.datagrams ≤ suc datagrams_sent.counts.packets)
send_datagrams_counts_example =
    send_datagrams_counts fixed 1200 6 (λ p. ran p) sender datagrams_sent sends
      (λ p q e. ground arith) refl refl (omega arith) (omega arith)
      (unfold send_datagrams queued_until in refl)

send_datagrams_ends_example :
    send_datagrams fixed 1200 6
      (λ p. ran p)
      sender
      (sent true (idle_round ∷ sent_round ∷ []) lossy ∷ timer ∷ [])
    ≢ running
send_datagrams_ends_example =
    send_datagrams_ends fixed 1200 6 (λ p. ran p) sender
      (sent true (idle_round ∷ sent_round ∷ []) lossy ∷ []) [] (λ q e. cc)
      ((idle_round ∷ [], [], sent_round, refl, omega arith), tt)

-- Every run connects, and the third bench fails.
third_fails : ℕ → ℕ → Ran ℕ
third_fails run c = if ltb run 3 then ran run else failed write_failed

run_bench_iterations-IsBalanced_example :
    IsBalanced {E = ℕ}
      (λ run. connected run)
      (λ run c. true)
      third_fails
      100
      0
      5
      (run_bench_iterations {E = ℕ} (λ run. connected run) (λ run c. true) third_fails 100 5)
run_bench_iterations-IsBalanced_example =
    run_bench_iterations-IsBalanced {E = ℕ} (λ run. connected run) (λ run c. true) third_fails 100 5
      (omega arith)

sum_from_test : sum_from 64 0 ((2 ^ 64 - 1) ∷ 3 ∷ []) ≡ 2
unfolding sum_from
sum_from_test = refl
