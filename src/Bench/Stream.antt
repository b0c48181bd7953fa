-- ===== src/Bench/Stream.antt =====
-- The stream loops of the bench: the sender of the server's `run_stream_download_bench` and the
-- client's `run_stream_upload_bench`, and the receivers of the other two.
pub mod Framed
pub mod Raw
use rust_vpn.Prelude.{
  ℕ, ◌+◌, ◌≡◌, Bool, true, false, List, [], ◌∷◌, ◌++◌, Option, some, none, if◌then◌else◌, Result,
  ok, err, leb, ◌==◌, length, take, min,
}
use rust_vpn.Bench.{
  BenchError, connection_closed, read_failed, write_failed, frame_failed, timed_out, Ran, ran,
  failed, running, Counts, add_packet,
}
use rust_vpn.Core.Quic.Frame.{Read, chunk, FrameError, write_stream_packet, read_stream_packet}
use rust_vpn.Core.Quic.Frame
use rust_vpn.Core.Quic.Pacer.{Float, EgressPacer, Observed, record_and_wait}
use rust_vpn.Text.Utf8.{Bytes}

-- What the `select!` of a framed round answers: the write has ended, or the connection has.
pub data FramedWrite : Type 0 where
  wrote_all write_error closed : FramedWrite

-- What `timeout_at(deadline, stream.write(..))` answers: the number of bytes taken, an error, or the
-- deadline.
pub data RawWrite : Type 0 where
  wrote : ℕ → RawWrite
  raw_error out_of_time : RawWrite

-- A round of a sender: `Instant::now()` in front of it, its write, and what the pacer sees.
pub record WriteRound (W : Type 0) : Type 0 where
  pub now : ℕ
  pub write : W
  pub seen : Observed

-- The variables of a sender, and the bytes that it has written.
pub record StreamSend (F : Type 0) : Type 0 where
  pub counts : Counts
  pub pacer : EgressPacer F
  pub written : Bytes

module _ {F : Type 0} (f : Float F) (payload : Bytes) (deadline : ℕ) where
  -- Behind a write of these bytes, `n` of them counted.
  abbrev wrote_bytes : StreamSend F → Observed → ℕ → Bytes → StreamSend F
  wrote_bytes p seen n bytes = record {
    counts = add_packet p.counts n;
    pacer = (record_and_wait f n true seen p.pacer).0;
    written = p.written ++ bytes;
  }

  -- `write_stream_packet` in a `select!` with the end of the connection.
  framed_round :
      StreamSend F
      → Ran (StreamSend F)
      → Observed
      → FramedWrite
      → Result FrameError Bytes
      → (StreamSend F → Ran (StreamSend F))
      → Ran (StreamSend F)
  framed_round p on_closed seen wrote_all (ok frame) next =
      next (wrote_bytes p seen (length payload) frame)
  framed_round p on_closed seen wrote_all (err e) next = failed (frame_failed e)
  framed_round p on_closed seen write_error frame next = failed write_failed
  framed_round p on_closed seen closed frame next = on_closed

  -- A write takes no more than the payload.
  raw_round :
      StreamSend F → Observed → RawWrite → (StreamSend F → Ran (StreamSend F)) → Ran (StreamSend F)
  raw_round p seen (wrote n) next =
      let go = next (wrote_bytes p seen (length (take n payload)) (take n payload)) in
      if n == 0 then ran p else go
  raw_round p seen raw_error next = failed write_failed
  raw_round p seen out_of_time next = ran p

  -- The loop of a framed sender; what a closed connection means to it is an argument.
  unfoldable pub send_frames :
      (StreamSend F → Ran (StreamSend F))
      → StreamSend F
      → List (WriteRound FramedWrite)
      → Ran (StreamSend F)
  unfolding framed_round write_stream_packet
  send_frames on_closed p [] = running
  send_frames on_closed p (r ∷ rs) =
      let go =
        framed_round p (on_closed p) r.seen r.write (write_stream_packet 2 payload)
          (λ q. send_frames on_closed q rs) in
      if leb deadline r.now then ran p else go

  -- The loop of a sender without frames.
  unfoldable pub send_bytes : StreamSend F → List (WriteRound RawWrite) → Ran (StreamSend F)
  unfolding raw_round
  send_bytes p [] = running
  send_bytes p (r ∷ rs) =
      let go = raw_round p r.seen r.write (λ q. send_bytes q rs) in
      if leb deadline r.now then ran p else go

module _ {S : Type 0} (read : ℕ → S → Read × S) (buf_len : ℕ)
    (on_timeout : Counts → Ran Counts) where
  -- What one answer of `read_stream_packet` does; the packet of length 0 is not counted.
  after_packet : Counts → Result FrameError (Option Bytes) → (Counts → Ran Counts) → Ran Counts
  after_packet c (ok none) next = ran c
  after_packet c (err e) next = failed (frame_failed e)
  after_packet c (ok (some packet)) next =
      let skip = next c in
      let go = next (add_packet c (length packet)) in if length packet == 0 then skip else go

  -- What one answer of `stream.read` does.
  after_chunk : Counts → Read → (Counts → Ran Counts) → Ran Counts
  after_chunk c (chunk bytes) next = next (add_packet c (length bytes))
  after_chunk c Frame.finished next = ran c
  after_chunk c Frame.failed next = failed read_failed

  -- The loop of a receiver. A round is `true` where its read ends before the deadline; what the
  -- deadline means is the section's argument.
  pub receive_packets : Counts → S → List Bool → Ran Counts
  receive_packets c s [] = running
  receive_packets c s (false ∷ rs) = on_timeout c
  receive_packets c s (true ∷ rs) =
      let (answer, s') = read_stream_packet read buf_len s in
      after_packet c answer (λ c'. receive_packets c' s' rs)

  pub receive_bytes : Counts → S → List Bool → Ran Counts
  receive_bytes c s [] = running
  receive_bytes c s (false ∷ rs) = on_timeout c
  receive_bytes c s (true ∷ rs) =
      let (answer, s') = read buf_len s in after_chunk c answer (λ c'. receive_bytes c' s' rs)
