-- ===== src/Bench/Stream/Raw.antt =====
-- The stream bench without frames: both ends count the same bytes, however the stream cuts them.
use rust_vpn.Prelude.{
  ℕ, zero, suc, ◌+◌, ◌%◌, ◌^◌, ◌≤◌, ◌<◌, ◌≡◌, refl, sym, ap, ◌∙◌, Bool, true, false, List, [], ◌∷◌,
  ◌++◌, subst, append_assoc, append-nil, arith, leb, ◌==◌, length, take, length-append,
}
use rust_vpn.Bench.{Ran, ran, Counts, nothing, add_packet, stop_or_go}
use rust_vpn.Bench.Stream.{
  RawWrite, wrote, raw_error, out_of_time, WriteRound, StreamSend, raw_round, send_bytes,
  after_chunk, receive_bytes,
}
use rust_vpn.Bench.Stream.Framed.{InTime}
use rust_vpn.Core.Quic.Frame.{Read, chunk, finished, failed, Delivers}
use rust_vpn.Core.Quic.Frame
use rust_vpn.Core.Quic.Pacer.{Float, EgressPacer, Observed}
use rust_vpn.Text.Utf8.{Bytes}

-- The counter of bytes goes along with the bytes.
pub record IsCounted {F : Type 0} (p q : StreamSend F) : Type 0 where
  pub bytes : Bytes
  pub all_written : q.written ≡ p.written ++ bytes
  pub counted : q.counts.bytes % 2 ^ 64 ≡ (p.counts.bytes + length bytes) % 2 ^ 64
  pub in_range : p.counts.bytes < 2 ^ 64 → q.counts.bytes < 2 ^ 64

module _ {F : Type 0} (f : Float F) (payload : Bytes) (deadline : ℕ) where
  none-IsCounted : (p : StreamSend F) → IsCounted p p
  none-IsCounted p = record {
    bytes = [];
    all_written = sym (append-nil p.written);
    counted = omega arith;
    in_range = λ h. h;
  }

  some-IsCounted :
      (p p' q : StreamSend F) (bytes : Bytes)
      → p'.written ≡ p.written ++ bytes
      → p'.counts ≡ add_packet p.counts (length bytes)
      → IsCounted p' q
      → IsCounted p q
  unfolding add_packet
  some-IsCounted p p' q bytes e g s =
      let same : p'.counts.bytes ≡ (p.counts.bytes + length bytes) % 2 ^ 64 =
        ap (λ (c : Counts). c.bytes) g in
      record {
        bytes = bytes ++ s.bytes;
        all_written =
            s.all_written
            ∙ ap (λ (w : Bytes). w ++ s.bytes) e
            ∙ append_assoc p.written bytes s.bytes;
        counted = omega (arith, s.counted, same, length-append bytes s.bytes);
        in_range = λ h. s.in_range (omega (arith, same));
      }

  raw_round-IsCounted :
      (p q : StreamSend F) (seen : Observed) (w : RawWrite)
      (next : StreamSend F → Ran (StreamSend F))
      → ((p' : StreamSend F) → next p' ≡ ran q → IsCounted p' q)
      → raw_round f payload deadline p seen w next ≡ ran q
      → IsCounted p q
  unfolding raw_round
  raw_round-IsCounted p q seen (wrote n) next k r =
      stop_or_go (IsCounted p) (n == 0) p q _ r (none-IsCounted p)
        (λ g. some-IsCounted p _ q (take n payload) refl refl (k _ g))
  raw_round-IsCounted p q seen raw_error next k r = cc
  raw_round-IsCounted p q seen out_of_time next k r =
      subst (IsCounted p) (ground arith) (none-IsCounted p)

  send_bytes-IsCounted :
      (p q : StreamSend F) (rs : List (WriteRound RawWrite))
      → send_bytes f payload deadline p rs ≡ ran q
      → IsCounted p q
  unfolding send_bytes
  send_bytes-IsCounted p q [] r = cc
  send_bytes-IsCounted p q (w ∷ rs) r =
      stop_or_go (IsCounted p) (leb deadline w.now) p q _ r (none-IsCounted p) (λ g.
        raw_round-IsCounted p q w.seen w.write (λ p'. send_bytes f payload deadline p' rs)
          (λ p' h. send_bytes-IsCounted p' q rs h) g)

-- What a receiver that is done has counted.
pub record HasCounted (c c' : Counts) (total : ℕ) : Type 0 where
  pub counted : c'.bytes % 2 ^ 64 ≡ (c.bytes + total) % 2 ^ 64
  pub in_range : c.bytes < 2 ^ 64 → c'.bytes < 2 ^ 64

module _ {S : Type 0} (read : ℕ → S → Read × S) (pending : S → Bytes) (d : Delivers read pending)
    (buf_len : ℕ) (on_timeout : Counts → Ran Counts) (room : 0 < buf_len) where
  -- A receiver that is done with `total` bytes.
  abbrev Counted : Ran Counts → Counts → ℕ → Type 0
  Counted r c total = (c' : Counts) × (r ≡ ran c') × HasCounted c c' total

  after_chunk-Counted :
      (c : Counts) (s s' : S) (answer : Read) (next : Counts → Ran Counts) (left : ℕ)
      → read buf_len s ≡ (answer, s')
      → length (pending s) ≤ left
      → ((c1 : Counts) → length (pending s') < left → Counted (next c1) c1 (length (pending s')))
      → Counted (after_chunk read buf_len on_timeout c answer next) c (length (pending s))
  unfolding after_chunk add_packet
  after_chunk-Counted c s s' (chunk bytes) next left e h k =
      let (order, _) = d.in_order buf_len s s' bytes e in
      let some_bytes : 0 < length bytes = d.progress buf_len s s' bytes room e in
      let total : length (pending s) ≡ length bytes + length (pending s') =
        ap (λ (b : Bytes). length b) order ∙ length-append bytes (pending s') in
      let (c', r, rest) = k (add_packet c (length bytes)) (omega arith) in
      (
        c',
        r,
        record {
          counted = omega (arith, rest.counted, total);
          in_range = λ h. rest.in_range (omega arith);
        },
      )
  after_chunk-Counted c s s' Frame.finished next left e h k =
      let (empty, _) = d.ends buf_len s s' e in
      (
        c,
        refl,
        record { counted = omega (arith, ap (λ (b : Bytes). length b) empty); in_range = λ h. h },
      )
  after_chunk-Counted c s s' Frame.failed next left e h k = absurd (d.reliable buf_len s s' e)

  receive_bytes-Counted :
      (left : ℕ) (c : Counts) (s : S) (rs : List Bool)
      → length (pending s) ≤ left
      → InTime (suc left) rs
      → Counted (receive_bytes read buf_len on_timeout c s rs) c (length (pending s))
  unfolding receive_bytes
  receive_bytes-Counted left c s [] h t = absurd t
  receive_bytes-Counted left c s (false ∷ rs) h t = absurd t
  receive_bytes-Counted zero c s (true ∷ rs) h t =
      after_chunk-Counted c s (read buf_len s).1 (read buf_len s).0 _ zero refl h
        (λ c1 l. absurd (omega arith))
  receive_bytes-Counted (suc left) c s (true ∷ rs) h t =
      after_chunk-Counted c s (read buf_len s).1 (read buf_len s).0 _ (suc left) refl h
        (λ c1 l. receive_bytes-Counted left c1 (read buf_len s).1 rs (omega arith) t)

-- The two ends of a stream bench without frames agree on the bytes: where the sender's loop is over and
-- the receiver has time for one read a byte and one more, the receiver ends without an error, and its
-- counter of bytes is the sender's, the wrap-around included. (Of the packets they may count
-- different numbers, since a read need not be a write.) The receiver's buffer is not empty, and the
-- stream delivers what was written.
pub raw_bytes_agree :
    {F : Type 0} (f : Float F) (payload : Bytes) (deadline : ℕ) (pacer : EgressPacer F)
    (q : StreamSend F) (writes : List (WriteRound RawWrite)) {S : Type 0} (read : ℕ → S → Read × S)
    (pending : S → Bytes)
    → Delivers read pending
    → (buf_len : ℕ) (on_timeout : Counts → Ran Counts) (s : S) (reads : List Bool) → 0 < buf_len
    → send_bytes f payload deadline
        (record { counts = nothing; pacer = pacer; written = [] })
        writes
      ≡ ran q
    → pending s ≡ q.written
    → InTime (suc (length q.written)) reads
    → (c : Counts) × (receive_bytes read buf_len on_timeout nothing s reads ≡ ran c)
      × (c.bytes ≡ q.counts.bytes)
raw_bytes_agree f payload deadline pacer q writes read pending d buf_len on_timeout s reads room r p
      t =
    let sent : IsCounted _ q = send_bytes-IsCounted f payload deadline _ q writes r in
    let size : length (pending s) ≡ length q.written = ap (λ (b : Bytes). length b) p in
    let (c, done, got) =
      receive_bytes-Counted read pending d buf_len on_timeout room (length q.written) nothing s
        reads (omega arith) t in
    (
      c,
      done,
      omega (
        arith,
        size,
        got.counted,
        got.in_range (omega arith),
        sent.counted,
        sent.in_range (omega arith),
        ap (λ (b : Bytes). length b) sent.all_written,
      ),
    )
