-- ===== src/Server/Bench.antt =====
-- crates/litevpn-server/src/main.rs: `run_bench` and the four benches of the server, each from its
-- start to the summary that it sends. Instants are in nanoseconds.
use rust_vpn.Prelude.{
  ℕ, ◌+◌, ◌*◌, Bool, true, false, List, [], Option, none, some, Result, ok, err, min, replicate,
  if◌then◌else◌,
}
use rust_vpn.Bench.{
  BenchError, open_failed, accept_failed, finish_failed, stop_failed, summary_open_failed,
  summary_write_failed, summary_finish_failed, Ran, ran, failed, Counts, nothing, ◌>>=◌,
}
use rust_vpn.Bench.Datagram.{SendRound, send_datagrams, Received, receive_datagrams}
use rust_vpn.Bench.Stream.{
  FramedWrite, RawWrite, WriteRound, StreamSend, send_frames, send_bytes, receive_packets,
  receive_bytes,
}
use rust_vpn.Core.Auth.{
  BenchDirection, upload, download, stream_upload, stream_download, stream_packet_upload,
  stream_packet_download,
}
use rust_vpn.Core.Quic.Backlog
use rust_vpn.Core.Quic.Finish.{Stopped, FinishError, finish_stream_with_ack}
use rust_vpn.Core.Quic.Finish
use rust_vpn.Core.Quic.Frame.{Read}
use rust_vpn.Core.Quic.Pacer.{Float, from_optional}
use rust_vpn.Server.Summary.{Stats, Summary, bench_summary}
use rust_vpn.Text.Utf8.{Bytes}

-- What the clock and the connection answer to a bench: the calls of `send_bench_summary` and what it
-- reads, the rounds of the loops, and the stream with its reads that end in time.
pub record World (S : Type 0) : Type 0 where
  pub summary_opens : Bool
  pub summary_writes : Bool
  pub summary_finishes : Bool
  pub elapsed_ms : ℕ
  -- `started.elapsed()` is read a second time where the measured time is the time elapsed
  pub elapsed_again_ms : ℕ
  pub stats : Stats
  pub started : ℕ
  pub tx_datagrams : ℕ
  pub max_datagram_size : Option ℕ
  pub received : List Received
  pub sends : List SendRound
  pub opens : Bool
  pub accepts : Bool
  pub stream : S
  pub reads : List Bool
  pub framed_writes : List (WriteRound FramedWrite)
  pub raw_writes : List (WriteRound RawWrite)
  pub finishes : Bool
  pub stopped : Stopped

-- `?` behind a call that answers with success or not
unfoldable pub demand : Bool → BenchError → Ran (Unit {0})
demand true e = ran tt
demand false e = failed e

abbrev pub nanos_per_sec : ℕ
nanos_per_sec = 1_000_000_000

-- `Duration::from_secs(duration_secs).as_millis()`
abbrev pub millis : ℕ → ℕ
millis duration_secs = duration_secs * 1000

-- `connection.max_datagram_size().unwrap_or(payload_bytes).min(payload_bytes)`
unfoldable pub capped_payload : Option ℕ → ℕ → ℕ
capped_payload none payload_bytes = payload_bytes
capped_payload (some max) payload_bytes = min max payload_bytes

-- `finish_stream_with_ack(..).await?`
unfoldable pub demand_finish : Result FinishError (Unit {0}) → Ran (Unit {0})
demand_finish (ok done) = ran done
demand_finish (err Finish.finish_failed) = failed finish_failed
demand_finish (err Finish.wait_failed) = failed stop_failed

-- The arguments of `run_bench`, but the connection.
pub record Request : Type 0 where
  pub duration_secs : ℕ
  pub payload_bytes : ℕ
  pub target_mbps : Option ℕ
  pub datagram_backlog_packets : ℕ
  pub adaptive_egress : Bool

module _ {S : Type 0} (w : World S) where
  -- `send_bench_summary`: the bytes that it has written. The wait behind them changes nothing.
  unfoldable pub send_bench_summary : Summary → Ran Bytes
  unfolding demand
  send_bench_summary summary = do
    _ ← demand w.summary_opens summary_open_failed
    _ ← demand w.summary_writes summary_write_failed
    _ ← demand w.summary_finishes summary_finish_failed
    ran (bench_summary summary)

  -- The summary behind a loop, with the measured time and the payload that it names.
  unfoldable pub summary_of : BenchDirection → ℕ → ℕ → Option ℕ → Counts → Summary
  summary_of direction measured_elapsed_ms payload_bytes target_mbps counts = record {
    direction = direction;
    elapsed_ms = w.elapsed_ms;
    measured_elapsed_ms = measured_elapsed_ms;
    bytes = counts.bytes;
    packets = counts.packets;
    payload_bytes = payload_bytes;
    target_mbps = target_mbps;
    stats = w.stats;
  }

  unfoldable pub run_upload_bench : Request → Ran Bytes
  unfolding summary_of send_bench_summary
  run_upload_bench q = do
    counts ← receive_datagrams nothing w.received
    send_bench_summary
        (summary_of upload (millis q.duration_secs) q.payload_bytes q.target_mbps counts)

  module _ {F : Type 0} (f : Float F) where
    unfoldable pub run_download_bench : Request → Ran Bytes
    unfolding summary_of send_bench_summary capped_payload
    run_download_bench q = do
      let payload_bytes = capped_payload w.max_datagram_size q.payload_bytes
      sent ←
          send_datagrams f payload_bytes (w.started + q.duration_secs * nanos_per_sec) (λ p. ran p)
            (record {
              counts = nothing;
              backlog = Backlog.new w.tx_datagrams q.datagram_backlog_packets;
              pacer = from_optional f w.started q.target_mbps payload_bytes q.adaptive_egress;
              datagrams = 0;
            })
            w.sends
      send_bench_summary
          (summary_of download w.elapsed_again_ms payload_bytes q.target_mbps sent.counts)

    -- The loop of `run_stream_download_bench`, framed or not; a closed connection ends it.
    unfoldable pub stream_download_loop : Bool → Request → Ran (StreamSend F)
    stream_download_loop framed q =
        let payload = replicate q.payload_bytes 0 in
        let deadline = w.started + q.duration_secs * nanos_per_sec in
        let begin : StreamSend F = record {
          counts = nothing;
          pacer = from_optional f w.started q.target_mbps q.payload_bytes q.adaptive_egress;
          written = [];
        } in
        if framed
        then send_frames f payload deadline (λ p. ran p) begin w.framed_writes
        else send_bytes f payload deadline begin w.raw_writes

    unfoldable pub run_stream_download_bench : Bool → Request → Ran Bytes
    unfolding summary_of send_bench_summary stream_download_loop demand demand_finish
    run_stream_download_bench framed q = do
      _ ← demand w.opens open_failed
      sent ← stream_download_loop framed q
      _ ← demand_finish (finish_stream_with_ack w.finishes w.stopped)
      send_bench_summary (
          summary_of (if framed then stream_packet_download else stream_download) w.elapsed_again_ms
            q.payload_bytes q.target_mbps sent.counts)

  module _ (read : ℕ → S → Read × S) where
    -- The loop of `run_stream_upload_bench`, framed or not; the deadline ends it.
    unfoldable pub stream_upload_loop : Bool → Request → Ran Counts
    stream_upload_loop framed q =
        if framed
        then receive_packets read q.payload_bytes (λ c. ran c) nothing w.stream w.reads
        else receive_bytes read q.payload_bytes (λ c. ran c) nothing w.stream w.reads

    unfoldable pub run_stream_upload_bench : Bool → Request → Ran Bytes
    unfolding summary_of send_bench_summary stream_upload_loop demand
    run_stream_upload_bench framed q = do
      _ ← demand w.accepts accept_failed
      counts ← stream_upload_loop framed q
      send_bench_summary (
          summary_of (if framed then stream_packet_upload else stream_upload)
            (millis q.duration_secs) q.payload_bytes q.target_mbps counts)

  -- The dispatch on the direction that the client asked for.
  unfoldable pub run_bench :
      {F : Type 0} → Float F → (ℕ → S → Read × S) → BenchDirection → Request → Ran Bytes
  run_bench f read upload q = run_upload_bench q
  run_bench f read download q = run_download_bench f q
  run_bench f read stream_upload q = run_stream_upload_bench read false q
  run_bench f read stream_download q = run_stream_download_bench f false q
  run_bench f read stream_packet_upload q = run_stream_upload_bench read true q
  run_bench f read stream_packet_download q = run_stream_download_bench f true q
