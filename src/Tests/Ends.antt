-- ===== src/Tests/Ends.antt =====
-- The bench of both ends together at concrete inputs.
use rust_vpn.Prelude.{ℕ, ◌≤◌, ◌≡◌, refl, true, [], ◌∷◌, none, arith, length}
use rust_vpn.Bench.{ran, add_packet}
use rust_vpn.Bench.Stream.{StreamSend, send_frames}
use rust_vpn.Client.Bench.{
  World, BenchMeasurement, stream_upload_loop, run_stream_upload_bench, run_stream_download_bench,
}
use rust_vpn.Client.Bench.Agree.{IsUndisturbed, IsAgreed, server_summary, framed_upload_agrees}
use rust_vpn.Client.Bench.Download.{framed_download_agrees}
use rust_vpn.Client.Bench.Download
use rust_vpn.Core.Quic.Finish.{received_all, finish_stream_with_ack}
use rust_vpn.Core.Auth.{as_str}
use rust_vpn.Text.Number.{display}
use rust_vpn.Server.Bench.{Request}
use rust_vpn.Server.Bench
use rust_vpn.Server.Summary.{Summary, target_text, bench_summary}
use rust_vpn.Tests.Core.{within, within_delivers}
use rust_vpn.Tests.Frame.{byte_read, byte_delivers}
use rust_vpn.Tests.Pacing.{fixed}
use rust_vpn.Tests.Summary.{stats}
use rust_vpn.Text.Utf8.{Bytes, as_bytes}
use rust_vpn.Tests.Bench.{value_or, begin, frame_round}

abbrev request : Request
request = record {
  duration_secs = 10;
  payload_bytes = 3;
  target_mbps = none;
  datagram_backlog_packets = 64;
  adaptive_egress = true;
}

abbrev server_world : Bench.World Bytes
server_world = record {
  summary_opens = true;
  summary_writes = true;
  summary_finishes = true;
  elapsed_ms = 10_100;
  elapsed_again_ms = 10_100;
  stats = stats;
  started = 0;
  tx_datagrams = 0;
  max_datagram_size = none;
  received = [];
  sends = [];
  opens = true;
  accepts = true;
  stream = 0 ∷ 3 ∷ 0 ∷ 0 ∷ 0 ∷ 0 ∷ 3 ∷ 0 ∷ 0 ∷ 0 ∷ [];
  reads = true ∷ true ∷ true ∷ true ∷ [];
  framed_writes = [];
  raw_writes = [];
  finishes = true;
  stopped = received_all;
}

abbrev unread : World Bytes
unread = record {
  started = 0;
  elapsed = 10_000_000_000;
  tx_datagrams = 0;
  sends = [];
  received = [];
  opens = true;
  accepts = true;
  stream = [];
  reads = [];
  framed_writes = frame_round 1 ∷ frame_round 2 ∷ frame_round 10_000_000_000 ∷ [];
  raw_writes = [];
  finishes = true;
  stopped = received_all;
  summary_in_time = true;
  summary_accepts = true;
  summary_read_to_end = λ limit. none;
}

abbrev upload_sent : StreamSend ℕ
upload_sent = value_or (stream_upload_loop fixed unread true request) begin

-- The client to which the server's summary is delivered.
abbrev client_world : World Bytes
client_world = record unread {
  summary_read_to_end = λ limit. within limit (
      bench_summary (
        server_summary fixed unread server_world byte_read (λ s. s) byte_delivers request
          upload_sent));
}

upload-IsUndisturbed : IsUndisturbed client_world server_world (λ s. s) request upload_sent
unfolding stream_upload_loop send_frames Bench.demand_finish finish_stream_with_ack
upload-IsUndisturbed = record {
  opens = refl;
  acked = refl;
  accepts = refl;
  delivered = refl;
  in_time = tt;
  summary_opens = refl;
  summary_writes = refl;
  summary_finishes = refl;
  summary_in_time = refl;
  summary_accepts = refl;
}

abbrev agreed_summary : Summary
agreed_summary =
    server_summary fixed client_world server_world byte_read (λ s. s) byte_delivers request
      upload_sent

agreed_summary_fits : length (bench_summary agreed_summary) ≤ 1024
unfolding stream_upload_loop send_frames Bench.summary_of bench_summary as_bytes display as_str
    target_text add_packet
agreed_summary_fits = omega arith

framed_upload_agrees_example :
    (Bench.run_stream_upload_bench server_world byte_read true request
      ≡ ran (bench_summary agreed_summary))
    × ((m : BenchMeasurement ℕ) × (run_stream_upload_bench fixed client_world true request ≡ ran m)
        × IsAgreed (Bench.millis request.duration_secs) m)
framed_upload_agrees_example =
    framed_upload_agrees fixed client_world server_world byte_read (λ s. s) byte_delivers request
      upload_sent (omega arith) (omega arith) (omega arith) (omega arith) (omega arith)
      (unfold stream_upload_loop send_frames in refl) upload-IsUndisturbed
      (within_delivers 1024 (bench_summary agreed_summary) agreed_summary_fits)

abbrev sending : Bench.World Bytes
sending = record server_world {
  framed_writes = frame_round 1 ∷ frame_round 2 ∷ frame_round 10_000_000_000 ∷ [];
}

abbrev download_sent : StreamSend ℕ
download_sent = value_or (Bench.stream_download_loop sending fixed true request) begin

abbrev receiving : World Bytes
receiving = record unread { stream = server_world.stream; reads = server_world.reads }

abbrev download_summary : Summary
download_summary =
    Download.server_summary fixed receiving sending byte_read (λ s. s) byte_delivers request
      download_sent

abbrev downloading : World Bytes
downloading = record receiving {
  summary_read_to_end = λ limit. within limit (bench_summary download_summary);
}

download-IsUndisturbed : Download.IsUndisturbed downloading sending (λ s. s) download_sent
unfolding Bench.stream_download_loop send_frames Bench.demand_finish finish_stream_with_ack
download-IsUndisturbed = record {
  opens = refl;
  acked = refl;
  accepts = refl;
  delivered = refl;
  in_time = tt;
  summary_opens = refl;
  summary_writes = refl;
  summary_finishes = refl;
  summary_in_time = refl;
  summary_accepts = refl;
}

download_summary_fits : length (bench_summary download_summary) ≤ 1024
unfolding Bench.stream_download_loop send_frames Bench.summary_of bench_summary as_bytes display
    as_str target_text add_packet
download_summary_fits = omega arith

framed_download_agrees_example :
    (Bench.run_stream_download_bench sending fixed true request
      ≡ ran (bench_summary download_summary))
    × ((m : BenchMeasurement ℕ) × (run_stream_download_bench fixed downloading byte_read true
            request
          ≡ ran m)
        × IsAgreed sending.elapsed_again_ms m)
framed_download_agrees_example =
    framed_download_agrees fixed downloading sending byte_read (λ s. s) byte_delivers request
      download_sent (omega arith) (omega arith) (omega arith) (omega arith) (omega arith)
      (unfold Bench.stream_download_loop send_frames in refl) download-IsUndisturbed
      (within_delivers 1024 (bench_summary download_summary) download_summary_fits)
