-- ===== src/Client/Bench/Download.antt =====
-- The framed download of the bench: the server sends, and the client counts and reads the summary.
use rust_vpn.Prelude.{
  ℕ, suc, ◌*◌, ◌+◌, ◌≤◌, ◌<◌, ◌≡◌, refl, ◌^◌, true, [], some, ok, replicate, arith, length,
  length-replicate,
}
use rust_vpn.Bench.{ran, failed, nothing, InRange, timed_out}
use rust_vpn.Bench.Stream.{StreamSend, send_frames}
use rust_vpn.Bench.Stream.Framed.{InTime, Closes, framed_counts_agree, send_frames-InRange}
use rust_vpn.Client.Bench.{
  BenchMeasurement, World, demand_summary, measured_with, stream_download_loop,
  run_stream_download_bench,
}
use rust_vpn.Client.Bench.Agree.{IsAgreed}
use rust_vpn.Client.Summary.{read_bench_summary_stream}
use rust_vpn.Client.Summary.RoundTrip.{IsSmall, measured, read_bench_summary}
use rust_vpn.Core.Auth.{stream_packet_download}
use rust_vpn.Core.Quic.Finish.{finish_stream_with_ack}
use rust_vpn.Core.Quic.Frame.{Read, Delivers, max_u16}
use rust_vpn.Core.Quic.Pacer.{Float, EgressPacer, from_optional}
use rust_vpn.Server.Bench.{
  Request, demand, demand_finish, nanos_per_sec, summary_of, send_bench_summary,
}
use rust_vpn.Server.Bench
use rust_vpn.Server.Summary.{Summary, bench_summary}
use rust_vpn.Text.{Text}
use rust_vpn.Text.Utf8.{Bytes}

-- No call fails and no read is late, and the stream delivers what was sent.
pub record IsUndisturbed {F S T : Type 0} (client : World S) (server : Bench.World T)
    (pending : S → Bytes) (sent : StreamSend F) : Type 0 where
  pub opens : server.opens ≡ true
  pub acked : demand_finish (finish_stream_with_ack server.finishes server.stopped) ≡ ran tt
  pub accepts : client.accepts ≡ true
  pub delivered : pending client.stream ≡ sent.written
  pub in_time : InTime (suc (length server.framed_writes)) client.reads
  pub summary_opens : server.summary_opens ≡ true
  pub summary_writes : server.summary_writes ≡ true
  pub summary_finishes : server.summary_finishes ≡ true
  pub summary_in_time : client.summary_in_time ≡ true
  pub summary_accepts : client.summary_accepts ≡ true

module _ {F S T : Type 0} (f : Float F) (client : World S) (server : Bench.World T)
    (read : ℕ → S → Read × S) (pending : S → Bytes) (d : Delivers read pending) (q : Request)
    (sent : StreamSend F) where
  abbrev pub server_summary : Summary
  server_summary =
      summary_of server stream_packet_download server.elapsed_again_ms q.payload_bytes q.target_mbps
        sent.counts

  abbrev payload : Bytes
  payload = replicate q.payload_bytes 0

  size : length payload ≡ q.payload_bytes
  size = length-replicate q.payload_bytes 0

  abbrev deadline : ℕ
  deadline = server.started + q.duration_secs * nanos_per_sec

  abbrev pacer : EgressPacer F
  pacer = from_optional f server.started q.target_mbps q.payload_bytes q.adaptive_egress

  closes : Closes f payload deadline (λ p. ran p)
  closes p q e = ground arith

  sender_loop :
      Bench.stream_download_loop server f true q ≡ ran sent
      → send_frames f payload deadline
          (λ p. ran p)
          (record { counts = nothing; pacer = pacer; written = [] })
          server.framed_writes
        ≡ ran sent
  unfolding Bench.stream_download_loop
  sender_loop r = r

  client_counts :
      0 < q.payload_bytes
      → q.payload_bytes ≤ max_u16
      → Bench.stream_download_loop server f true q ≡ ran sent
      → IsUndisturbed client server pending sent
      → stream_download_loop f client read true q ≡ ran sent.counts
  unfolding stream_download_loop
  client_counts h small r u =
      framed_counts_agree f payload deadline (λ p. ran p) pacer sent server.framed_writes read
        pending d q.payload_bytes (λ c. failed timed_out) client.stream client.reads
        (omega (arith, size)) (omega (arith, size)) (omega (arith, size)) closes (sender_loop r)
        u.delivered u.in_time

  server_run :
      Bench.stream_download_loop server f true q ≡ ran sent
      → IsUndisturbed client server pending sent
      → Bench.run_stream_download_bench server f true q ≡ ran (bench_summary server_summary)
  server_run r u =
      unfold Bench.run_stream_download_bench demand in
      rw (u.opens, r, u.acked, u.summary_opens, u.summary_writes, u.summary_finishes) refl

  sent_InRange :
      q.payload_bytes ≤ max_u16
      → Bench.stream_download_loop server f true q ≡ ran sent
      → InRange sent.counts
  sent_InRange small r =
      send_frames-InRange f payload deadline (λ p. ran p) _ sent server.framed_writes refl
        (omega (arith, size)) closes (sender_loop r)

  server_summary-IsSmall :
      InRange sent.counts
      → server.elapsed_again_ms < 2 ^ 64
      → server.stats.lost_packets < 2 ^ 64
      → server.stats.congestion_events < 2 ^ 64
      → IsSmall server_summary
  unfolding summary_of
  server_summary-IsSmall fits t lost events = record {
    bytes = omega (arith, fits.1);
    packets = omega (arith, fits.0);
    elapsed = omega arith;
    lost = omega arith;
    congestion = omega arith;
  }

  client_run :
      (text : Text)
      → stream_download_loop f client read true q ≡ ran sent.counts
      → IsUndisturbed client server pending sent
      → read_bench_summary_stream true client.summary_read_to_end ≡ ok text
      → run_stream_download_bench f client read true q
        ≡ ran (measured_with f client sent.counts text)
  client_run text r u e =
      unfold run_stream_download_bench demand demand_summary in
      rw (u.accepts, r, u.summary_in_time, u.summary_accepts, e) refl

  -- A framed download from end to end: where no call fails and no read is late, the server ends with
  -- its summary, and the client, to which that summary is delivered, ends with a measurement in which it
  -- has itself counted the packets and bytes that the server has sent, over the time that the server
  -- has measured. The numbers are 64-bit numbers, and the payload is not empty and not longer than a
  -- frame.
  pub framed_download_agrees :
      0 < q.payload_bytes
      → q.payload_bytes ≤ max_u16
      → server.elapsed_again_ms < 2 ^ 64
      → server.stats.lost_packets < 2 ^ 64
      → server.stats.congestion_events < 2 ^ 64
      → Bench.stream_download_loop server f true q ≡ ran sent
      → IsUndisturbed client server pending sent
      → client.summary_read_to_end 1024 ≡ some (bench_summary server_summary)
      → (Bench.run_stream_download_bench server f true q ≡ ran (bench_summary server_summary))
        × ((m : BenchMeasurement F) × (run_stream_download_bench f client read true q ≡ ran m)
            × IsAgreed server.elapsed_again_ms m)
  framed_download_agrees h small t lost events r u e =
      let (text, got, parsed) =
        read_bench_summary f server_summary client.summary_read_to_end e
          (server_summary-IsSmall (sent_InRange small r) t lost events) in
      (
        server_run r u,
        (
          measured_with f client sent.counts text,
          client_run text (client_counts h small r u) u got,
          record {
            server = measured f server_summary;
            told = unfold measured_with in parsed;
            same_bytes = unfold measured_with summary_of in refl;
            same_packets = unfold measured_with summary_of in refl;
            same_duration = unfold summary_of in refl;
          },
        ),
      )
