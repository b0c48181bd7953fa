-- ===== src/Client/Bench/Agree.antt =====
-- The bench of both ends together: what the client's measurement says of itself and of the server.
use rust_vpn.Prelude.{
  ℕ, suc, ◌*◌, ◌+◌, ◌≤◌, ◌<◌, ◌≡◌, refl, ◌^◌, true, [], some, ok, replicate, arith, length,
  length-replicate,
}
use rust_vpn.Bench.{ran, failed, nothing, InRange, connection_closed}
use rust_vpn.Bench.Stream.{StreamSend, send_frames, receive_packets}
use rust_vpn.Bench.Stream.Framed.{InTime, framed_counts_agree, send_frames-InRange}
use rust_vpn.Client.Bench.{
  BenchMeasurement, World, demand_summary, measured_with, stream_upload_loop,
  run_stream_upload_bench,
}
use rust_vpn.Client.Summary.{ServerBenchMeasurement, read_bench_summary_stream}
use rust_vpn.Client.Summary.RoundTrip.{IsSmall, measured, read_bench_summary}
use rust_vpn.Core.Auth.{stream_packet_upload}
use rust_vpn.Core.Quic.Finish.{finish_stream_with_ack}
use rust_vpn.Core.Quic.Frame.{Read, Delivers, max_u16}
use rust_vpn.Core.Quic.Pacer.{Float, EgressPacer, from_optional}
use rust_vpn.Server.Bench.{
  Request, demand, demand_finish, nanos_per_sec, millis, summary_of, send_bench_summary,
}
use rust_vpn.Server.Bench
use rust_vpn.Server.Summary.{Summary, bench_summary}
use rust_vpn.Text.{Text}
use rust_vpn.Text.Utf8.{Bytes}

-- No call fails and no read is late, the stream delivers what was sent, and the summary stream what
-- the server wrote.
pub record IsUndisturbed {F S T : Type 0} (client : World T) (server : Bench.World S)
    (pending : S → Bytes) (q : Request) (sent : StreamSend F) : Type 0 where
  pub opens : client.opens ≡ true
  pub acked : demand_finish (finish_stream_with_ack client.finishes client.stopped) ≡ ran tt
  pub accepts : server.accepts ≡ true
  pub delivered : pending server.stream ≡ sent.written
  pub in_time : InTime (suc (length client.framed_writes)) server.reads
  pub summary_opens : server.summary_opens ≡ true
  pub summary_writes : server.summary_writes ≡ true
  pub summary_finishes : server.summary_finishes ≡ true
  pub summary_in_time : client.summary_in_time ≡ true
  pub summary_accepts : client.summary_accepts ≡ true

-- A measurement on which both ends agree.
pub record IsAgreed {F : Type 0} (elapsed_ms : ℕ) (m : BenchMeasurement F) : Type 0 where
  pub server : ServerBenchMeasurement F
  pub told : m.server ≡ some server
  pub same_bytes : server.bytes ≡ m.bytes
  pub same_packets : server.packets ≡ m.packets
  pub same_duration : server.elapsed_ms ≡ elapsed_ms

module _ {F S T : Type 0} (f : Float F) (client : World T) (server : Bench.World S)
    (read : ℕ → S → Read × S) (pending : S → Bytes) (d : Delivers read pending) (q : Request)
    (sent : StreamSend F) where
  -- The summary that the server sends.
  abbrev pub server_summary : Summary
  server_summary =
      summary_of server stream_packet_upload (millis q.duration_secs) q.payload_bytes q.target_mbps
        sent.counts

  abbrev payload : Bytes
  payload = replicate q.payload_bytes 0

  size : length payload ≡ q.payload_bytes
  size = length-replicate q.payload_bytes 0

  abbrev deadline : ℕ
  deadline = client.started + q.duration_secs * nanos_per_sec

  abbrev pacer : EgressPacer F
  pacer = from_optional f client.started q.target_mbps q.payload_bytes q.adaptive_egress

  sender_loop :
      stream_upload_loop f client true q ≡ ran sent
      → send_frames f payload deadline
          (λ p. failed connection_closed)
          (record { counts = nothing; pacer = pacer; written = [] })
          client.framed_writes
        ≡ ran sent
  unfolding stream_upload_loop
  sender_loop r = r

  server_run :
      0 < q.payload_bytes
      → q.payload_bytes ≤ max_u16
      → stream_upload_loop f client true q ≡ ran sent
      → IsUndisturbed client server pending q sent
      → Bench.run_stream_upload_bench server read true q ≡ ran (bench_summary server_summary)
  server_run h small r u =
      unfold Bench.run_stream_upload_bench demand in
      rw (u.accepts, counted, u.summary_opens, u.summary_writes, u.summary_finishes) refl
    where
      counted :
          receive_packets read q.payload_bytes (λ c. ran c) nothing server.stream server.reads
          ≡ ran sent.counts
      counted =
          framed_counts_agree f payload deadline (λ p. failed connection_closed) pacer sent
            client.framed_writes read pending d q.payload_bytes (λ c. ran c) server.stream
            server.reads (omega (arith, size)) (omega (arith, size)) (omega (arith, size))
            (λ p p' e. cc) (sender_loop r) u.delivered u.in_time

  sent_InRange :
      q.payload_bytes ≤ max_u16
      → stream_upload_loop f client true q ≡ ran sent
      → InRange sent.counts
  sent_InRange small r =
      send_frames-InRange f payload deadline (λ p. failed connection_closed) _ sent
        client.framed_writes refl (omega (arith, size)) (λ p p' e. cc) (sender_loop r)

  server_summary-IsSmall :
      InRange sent.counts
      → millis q.duration_secs < 2 ^ 64
      → server.stats.lost_packets < 2 ^ 64
      → server.stats.congestion_events < 2 ^ 64
      → IsSmall server_summary
  unfolding summary_of
  server_summary-IsSmall fits t lost events = record {
    bytes = omega (arith, fits.1);
    packets = omega (arith, fits.0);
    elapsed = omega arith;
    lost = omega arith;
    congestion = omega arith;
  }

  client_run :
      (text : Text)
      → stream_upload_loop f client true q ≡ ran sent
      → IsUndisturbed client server pending q sent
      → read_bench_summary_stream true client.summary_read_to_end ≡ ok text
      → run_stream_upload_bench f client true q ≡ ran (measured_with f client sent.counts text)
  client_run text r u e =
      unfold run_stream_upload_bench demand demand_summary in
      rw (u.opens, r, u.acked, u.summary_in_time, u.summary_accepts, e) refl

  -- A framed upload from end to end: where no call fails and no read is late, the server ends with its
  -- summary, and the client, to which that summary is delivered, ends with a measurement in which the
  -- server has the client's own counts of packets and bytes, over the duration that was asked for. The
  -- numbers are 64-bit numbers, and the payload is not empty and not longer than a frame.
  pub framed_upload_agrees :
      0 < q.payload_bytes
      → q.payload_bytes ≤ max_u16
      → millis q.duration_secs < 2 ^ 64
      → server.stats.lost_packets < 2 ^ 64
      → server.stats.congestion_events < 2 ^ 64
      → stream_upload_loop f client true q ≡ ran sent
      → IsUndisturbed client server pending q sent
      → client.summary_read_to_end 1024 ≡ some (bench_summary server_summary)
      → (Bench.run_stream_upload_bench server read true q ≡ ran (bench_summary server_summary))
        × ((m : BenchMeasurement F) × (run_stream_upload_bench f client true q ≡ ran m)
            × IsAgreed (millis q.duration_secs) m)
  framed_upload_agrees h small t lost events r u e =
      let (text, got, parsed) =
        read_bench_summary f server_summary client.summary_read_to_end e
          (server_summary-IsSmall (sent_InRange small r) t lost events) in
      (
        server_run h small r u,
        (
          measured_with f client sent.counts text,
          client_run text r u got,
          record {
            server = measured f server_summary;
            told = unfold measured_with in parsed;
            same_bytes = unfold measured_with summary_of in refl;
            same_packets = unfold measured_with summary_of in refl;
            same_duration = unfold summary_of in refl;
          },
        ),
      )
