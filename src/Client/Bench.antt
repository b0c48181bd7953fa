-- ===== src/Client/Bench.antt =====
-- crates/litevpn-client/src/main.rs: `run_bench` and the four benches of the client, each from its
-- start to its measurement. Instants and durations are in nanoseconds. What the client prints is not
-- modelled.
pub mod Aggregate
pub mod Iterations
pub mod Agree
pub mod Download
use rust_vpn.Prelude.{
  ℕ, ◌+◌, ◌*◌, ◌==◌, Bool, true, false, List, [], ◌∷◌, Option, none, some, Result, ok, err,
  replicate, if◌then◌else◌,
}
use rust_vpn.Bench.{
  BenchError, zero_duration, connection_closed, open_failed, accept_failed, no_summary, timed_out,
  summary_timed_out, Ran, ran, failed, running, Counts, nothing, ◌>>=◌,
}
use rust_vpn.Bench.Datagram.{
  SendRound, DatagramSend, send_datagrams, ReceivedBeside, receive_until_summary,
}
use rust_vpn.Bench.Stream.{
  FramedWrite, RawWrite, WriteRound, StreamSend, send_frames, send_bytes, receive_packets,
  receive_bytes,
}
use rust_vpn.Client.Summary.{
  SummaryError, ServerBenchMeasurement, parse_server_bench_measurement, read_bench_summary_stream,
}
use rust_vpn.Core.Auth.{
  BenchDirection, upload, download, stream_upload, stream_download, stream_packet_upload,
  stream_packet_download,
}
use rust_vpn.Core.Quic.Backlog
use rust_vpn.Core.Quic.Finish.{Stopped, finish_stream_with_ack}
use rust_vpn.Core.Quic.Frame.{Read}
use rust_vpn.Core.Quic.Pacer.{Float, from_optional}
use rust_vpn.Server.Bench.{Request, demand, demand_finish, nanos_per_sec}
use rust_vpn.Text.{Text}
use rust_vpn.Text.Utf8.{Bytes}

pub record BenchMeasurement (F : Type 0) : Type 0 where
  pub mbps : F
  pub bytes : ℕ
  pub packets : ℕ
  pub elapsed : ℕ
  pub server : Option (ServerBenchMeasurement F)

-- What the clock and the connection answer to a bench.
pub record World (S : Type 0) : Type 0 where
  pub started : ℕ
  pub elapsed : ℕ
  pub tx_datagrams : ℕ
  pub sends : List SendRound
  pub received : List ReceivedBeside
  pub opens : Bool
  pub accepts : Bool
  pub stream : S
  pub reads : List Bool
  pub framed_writes : List (WriteRound FramedWrite)
  pub raw_writes : List (WriteRound RawWrite)
  pub finishes : Bool
  pub stopped : Stopped
  -- the stream with the summary: whether it is there within five seconds, `accept_bi`, `read_to_end`
  pub summary_in_time : Bool
  pub summary_accepts : Bool
  pub summary_read_to_end : ℕ → Option Bytes

-- `timeout(Duration::from_secs(5), read_bench_summary_stream(..)).await??`
unfoldable pub demand_summary : Bool → Result SummaryError Text → Ran Text
demand_summary false summary = failed summary_timed_out
demand_summary true (ok summary) = ran summary
demand_summary true (err e) = failed no_summary

module _ {F : Type 0} (f : Float F) where
  unfoldable pub bench_measurement :
      ℕ → ℕ → ℕ → Option (ServerBenchMeasurement F) → BenchMeasurement F
  bench_measurement elapsed bytes packets server =
      let seconds = f.larger (f.secs_of_nanos elapsed) (f.literal 1 1000) in
      record {
        mbps =
            f.div (f.div (f.mul (f.of_u64 bytes) (f.literal 8 1)) seconds) (f.literal 1_000_000 1);
        bytes = bytes;
        packets = packets;
        elapsed = elapsed;
        server = server;
      }

  module _ {S : Type 0} (w : World S) where
    -- The measurement of a run, with what the server's summary says.
    unfoldable pub measured_with : Counts → Text → BenchMeasurement F
    unfolding bench_measurement
    measured_with counts summary =
        bench_measurement w.elapsed counts.bytes counts.packets
          (parse_server_bench_measurement f summary)

    -- The end of the benches that wait for the summary behind their loop.
    unfoldable pub summarised : Counts → Ran (BenchMeasurement F)
    unfolding measured_with demand_summary
    summarised counts = do
      summary ←
          demand_summary w.summary_in_time
            (read_bench_summary_stream w.summary_accepts w.summary_read_to_end)
      ran (measured_with counts summary)

    unfoldable pub run_upload_bench : Request → Ran (BenchMeasurement F)
    unfolding summarised
    run_upload_bench q = do
      sent ←
          send_datagrams f q.payload_bytes (w.started + q.duration_secs * nanos_per_sec)
            (λ p. failed connection_closed)
            (record {
              counts = nothing;
              backlog = Backlog.new w.tx_datagrams q.datagram_backlog_packets;
              pacer = from_optional f w.started q.target_mbps q.payload_bytes q.adaptive_egress;
              datagrams = 0;
            })
            w.sends
      summarised sent.counts

    unfoldable pub run_download_bench : Ran (BenchMeasurement F)
    unfolding measured_with
    run_download_bench = do
      (counts, summary) ← receive_until_summary nothing w.received
      ran (measured_with counts summary)

    -- The loop of `run_stream_upload_bench`, framed or not; a closed connection is an error.
    unfoldable pub stream_upload_loop : Bool → Request → Ran (StreamSend F)
    stream_upload_loop framed q =
        let payload = replicate q.payload_bytes 0 in
        let deadline = w.started + q.duration_secs * nanos_per_sec in
        let begin : StreamSend F = record {
          counts = nothing;
          pacer = from_optional f w.started q.target_mbps q.payload_bytes q.adaptive_egress;
          written = [];
        } in
        if framed
        then send_frames f payload deadline (λ p. failed connection_closed) begin w.framed_writes
        else send_bytes f payload deadline begin w.raw_writes

    unfoldable pub run_stream_upload_bench : Bool → Request → Ran (BenchMeasurement F)
    unfolding summarised stream_upload_loop
    run_stream_upload_bench framed q = do
      _ ← demand w.opens open_failed
      sent ← stream_upload_loop framed q
      _ ← demand_finish (finish_stream_with_ack w.finishes w.stopped)
      summarised sent.counts

    module _ (read : ℕ → S → Read × S) where
      -- The loop of `run_stream_download_bench`, framed or not; the deadline is an error.
      unfoldable pub stream_download_loop : Bool → Request → Ran Counts
      stream_download_loop framed q =
          if framed
          then receive_packets read q.payload_bytes (λ c. failed timed_out) nothing w.stream w.reads
          else receive_bytes read q.payload_bytes (λ c. failed timed_out) nothing w.stream w.reads

      unfoldable pub run_stream_download_bench : Bool → Request → Ran (BenchMeasurement F)
      unfolding summarised stream_download_loop
      run_stream_download_bench framed q = do
        _ ← demand w.accepts accept_failed
        counts ← stream_download_loop framed q
        summarised counts

      -- The dispatch on the direction, for a duration that is not 0.
      unfoldable pub run_direction : BenchDirection → Request → Ran (BenchMeasurement F)
      run_direction upload q = run_upload_bench q
      run_direction download q = run_download_bench
      run_direction stream_upload q = run_stream_upload_bench false q
      run_direction stream_download q = run_stream_download_bench false q
      run_direction stream_packet_upload q = run_stream_upload_bench true q
      run_direction stream_packet_download q = run_stream_download_bench true q

      unfoldable pub run_bench : BenchDirection → Request → Ran (BenchMeasurement F)
      unfolding run_direction
      run_bench direction q =
          if q.duration_secs == 0 then failed zero_duration else run_direction direction q
