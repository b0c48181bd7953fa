-- ===== src/Bench/Stream/Framed.antt =====
-- The framed stream bench of both ends: what the sender counts is what the receiver counts.
use rust_vpn.Prelude.{
  ℕ, subst, Option, zero, suc, ◌≤◌, ◌<◌, ◌≡◌, refl, sym, ap, ◌∙◌, Bool, true, false, List, [], ◌∷◌,
  ◌++◌, none, some, Result, ok, err, append_assoc, append-nil, arith, leb, length,
}
use rust_vpn.Bench.{
  Ran, ran, Counts, nothing, add_packet, add_packets, stop_or_go, InRange, add_packets-InRange,
}
use rust_vpn.Bench.Stream.{
  FramedWrite, wrote_all, write_error, closed, WriteRound, StreamSend, framed_round, send_frames,
  after_packet, receive_packets,
}
use rust_vpn.Core.Quic.Frame.{
  Read, FrameError, Delivers, max_u16, to_be_bytes, write_stream_packet, read_stream_packet,
}
use rust_vpn.Core.Quic.Frame.RoundTrip.{read-write_stream_packet, read_stream_packet-end}
use rust_vpn.Core.Quic.Pacer.{Float, EgressPacer, Observed}
use rust_vpn.Text.Utf8.{Bytes}

-- One frame a number of times.
abbrev pub copies : ℕ → Bytes → Bytes
copies zero frame = []
copies (suc k) frame = frame ++ copies k frame

-- A sender that is done has written a number of frames, one a round at most, and counted each of them.
pub record IsSent {F : Type 0} (rounds n : ℕ) (frame : Bytes) (p q : StreamSend F) : Type 0 where
  pub frames : ℕ
  pub few : frames ≤ rounds
  pub all_written : q.written ≡ p.written ++ copies frames frame
  pub all_counted : q.counts ≡ add_packets p.counts frames n

module _ {F : Type 0} (f : Float F) (payload : Bytes) (deadline : ℕ)
    (on_closed : StreamSend F → Ran (StreamSend F)) where
  -- A closed connection ends the loop, with the counts so far or with an error.
  abbrev pub Closes : Type 0
  Closes = (p q : StreamSend F) → on_closed p ≡ ran q → q ≡ p

  none-IsSent :
      (rounds : ℕ) (frame : Bytes) (p : StreamSend F) → IsSent rounds (length payload) frame p p
  none-IsSent rounds frame p = record {
    frames = 0;
    few = omega arith;
    all_written = sym (append-nil p.written);
    all_counted = unfold add_packets in refl;
  }

  one_more :
      (rounds : ℕ) (frame : Bytes) (p p' q : StreamSend F)
      → p'.written ≡ p.written ++ frame
      → p'.counts ≡ add_packet p.counts (length payload)
      → IsSent rounds (length payload) frame p' q
      → IsSent (suc rounds) (length payload) frame p q
  one_more rounds frame p p' q e g s = record {
    frames = suc s.frames;
    few = omega (arith, s.few);
    all_written =
        s.all_written
        ∙ ap (λ (w : Bytes). w ++ copies s.frames frame) e
        ∙ append_assoc p.written frame (copies s.frames frame);
    all_counted =
        s.all_counted
        ∙ ap (λ (c : Counts). add_packets c s.frames (length payload)) g
        ∙ unfold add_packets in refl;
  }

  framed_round-IsSent :
      (rounds : ℕ) (frame : Bytes) (p q : StreamSend F) (seen : Observed) (w : FramedWrite)
      (framed : Result FrameError Bytes) (next : StreamSend F → Ran (StreamSend F))
      → framed ≡ ok frame
      → Closes
      → ((p' : StreamSend F) → next p' ≡ ran q → IsSent rounds (length payload) frame p' q)
      → framed_round f payload deadline p (on_closed p) seen w framed next ≡ ran q
      → IsSent (suc rounds) (length payload) frame p q
  unfolding framed_round
  framed_round-IsSent rounds frame p q seen wrote_all (ok bytes) next e c k r =
      one_more rounds frame p _ q (ground arith) refl (k _ r)
  framed_round-IsSent rounds frame p q seen wrote_all (err x) next e c k r = cc
  framed_round-IsSent rounds frame p q seen write_error framed next e c k r = cc
  framed_round-IsSent rounds frame p q seen closed framed next e c k r =
      subst (IsSent (suc rounds) (length payload) frame p) (sym (c p q r)) (none-IsSent _ frame p)

  send_frames-IsSent :
      (frame : Bytes) (p q : StreamSend F) (rs : List (WriteRound FramedWrite))
      → write_stream_packet 2 payload ≡ ok frame
      → Closes
      → send_frames f payload deadline on_closed p rs ≡ ran q
      → IsSent (length rs) (length payload) frame p q
  unfolding send_frames
  send_frames-IsSent frame p q [] e c r = cc
  send_frames-IsSent frame p q (w ∷ rs) e c r =
      stop_or_go (IsSent (suc (length rs)) (length payload) frame p) (leb deadline w.now) p q _ r
        (none-IsSent _ frame p)
        (λ g.
          framed_round-IsSent (length rs) frame p q w.seen w.write _
            (λ p'. send_frames f payload deadline on_closed p' rs) e c
            (λ p' h. send_frames-IsSent frame p' q rs e c h) g)

-- Rounds whose first `n` reads end before the deadline.
abbrev pub InTime : ℕ → List Bool → Type 0
InTime zero rs = Unit {0}
InTime (suc n) [] = ⊥
InTime (suc n) (false ∷ rs) = ⊥
InTime (suc n) (true ∷ rs) = InTime n rs

InTime-le : (k n : ℕ) (rs : List Bool) → k ≤ n → InTime n rs → InTime k rs
InTime-le zero n rs h t = tt
InTime-le (suc k) zero rs h t = absurd (omega arith)
InTime-le (suc k) (suc n) [] h t = t
InTime-le (suc k) (suc n) (false ∷ rs) h t = t
InTime-le (suc k) (suc n) (true ∷ rs) h t = InTime-le k n rs (omega arith) t

module _ {S : Type 0} (read : ℕ → S → Read × S) (pending : S → Bytes) (d : Delivers read pending)
    (buf_len : ℕ) (on_timeout : Counts → Ran Counts) where
  after_packet-some :
      (c : Counts) (packet : Bytes) (next : Counts → Ran Counts)
      → 0 < length packet
      → after_packet read buf_len on_timeout c (ok (some packet)) next
        ≡ next (add_packet c (length packet))
  unfolding after_packet
  after_packet-some c packet next h = ground arith

  receive_step :
      (c : Counts) (s s' : S) (rs : List Bool) (answer : Result FrameError (Option Bytes))
      → read_stream_packet read buf_len s ≡ (answer, s')
      → receive_packets read buf_len on_timeout c s (true ∷ rs)
        ≡ after_packet read buf_len on_timeout c answer
            (λ c'. receive_packets read buf_len on_timeout c' s' rs)
  receive_step c s s' rs answer e = unfolded ∙ rw e
    where
      unfolded :
          receive_packets read buf_len on_timeout c s (true ∷ rs)
          ≡ after_packet read buf_len on_timeout c (read_stream_packet read buf_len s).0 (λ c'.
            receive_packets read buf_len on_timeout c' (read_stream_packet read buf_len s).1 rs)
      unfolded = unfold receive_packets in refl

  receive_packets-copies :
      (payload frame : Bytes) (k : ℕ) (c : Counts) (s : S) (rs : List Bool)
      → write_stream_packet 2 payload ≡ ok frame
      → 0 < length payload
      → length payload ≤ buf_len
      → pending s ≡ copies k frame
      → InTime (suc k) rs
      → receive_packets read buf_len on_timeout c s rs ≡ ran (add_packets c k (length payload))
  receive_packets-copies payload frame zero c s (true ∷ rs) e h fits p t =
      let (s', run, _) = read_stream_packet-end read pending d buf_len s p in
      receive_step c s s' rs (ok none) run ∙ unfold after_packet add_packets in refl
  receive_packets-copies payload frame (suc k) c s (true ∷ rs) e h fits p t =
      let (s', run, left) =
        read-write_stream_packet read pending d 2 buf_len payload frame (copies k frame) s e fits
          p in
      receive_step c s s' rs (ok (some payload)) run
      ∙ after_packet-some c payload (λ c'. receive_packets read buf_len on_timeout c' s' rs) h
      ∙ receive_packets-copies payload frame k (add_packet c (length payload)) s' rs e h fits left t
      ∙ unfold add_packets in refl
  receive_packets-copies payload frame zero c s [] e h fits p t = absurd t
  receive_packets-copies payload frame (suc k) c s [] e h fits p t = absurd t
  receive_packets-copies payload frame zero c s (false ∷ rs) e h fits p t = absurd t
  receive_packets-copies payload frame (suc k) c s (false ∷ rs) e h fits p t = absurd t

write_small :
    (packet : Bytes)
    → length packet ≤ max_u16
    → (frame : Bytes) × (write_stream_packet 2 packet ≡ ok frame)
unfolding write_stream_packet
write_small packet h = (to_be_bytes (length packet) ++ packet, ground arith)

-- The two ends of a framed stream bench agree: where the sender's loop is over and the receiver's reads
-- end in time, the receiver ends without an error and has counted exactly the packets and the bytes
-- that the sender has counted, the wrap-around of the counters included. The payload is not empty, at
-- most as long as a frame allows, and fits the receiver's buffer; the stream delivers what was written.
pub framed_counts_agree :
    {F : Type 0} (f : Float F) (payload : Bytes) (deadline : ℕ)
    (on_closed : StreamSend F → Ran (StreamSend F)) (pacer : EgressPacer F) (q : StreamSend F)
    (writes : List (WriteRound FramedWrite)) {S : Type 0} (read : ℕ → S → Read × S)
    (pending : S → Bytes)
    → Delivers read pending
    → (buf_len : ℕ) (on_timeout : Counts → Ran Counts) (s : S) (reads : List Bool)
    → 0 < length payload
    → length payload ≤ max_u16
    → length payload ≤ buf_len
    → Closes f payload deadline on_closed
    → send_frames f payload deadline on_closed
        (record { counts = nothing; pacer = pacer; written = [] })
        writes
      ≡ ran q
    → pending s ≡ q.written
    → InTime (suc (length writes)) reads
    → receive_packets read buf_len on_timeout nothing s reads ≡ ran q.counts
framed_counts_agree f payload deadline on_closed pacer q writes read pending d buf_len on_timeout s
      reads h small fits c r p t =
    let (frame, e) = write_small payload small in
    let sent : IsSent (length writes) (length payload) frame _ q =
      send_frames-IsSent f payload deadline on_closed frame _ q writes e c r in
    receive_packets-copies read pending d buf_len on_timeout payload frame sent.frames nothing s
      reads e h fits (p ∙ sent.all_written)
      (InTime-le (suc sent.frames) (suc (length writes)) reads (omega (arith, sent.few)) t)
    ∙ ap (λ (k : Counts). ran k) (sym sent.all_counted)

-- The counters of a framed sender fit in 64 bits.
pub send_frames-InRange :
    {F : Type 0} (f : Float F) (payload : Bytes) (deadline : ℕ)
    (on_closed : StreamSend F → Ran (StreamSend F)) (p q : StreamSend F)
    (writes : List (WriteRound FramedWrite))
    → p.counts ≡ nothing
    → length payload ≤ max_u16
    → Closes f payload deadline on_closed
    → send_frames f payload deadline on_closed p writes ≡ ran q
    → InRange q.counts
send_frames-InRange f payload deadline on_closed p q writes empty small c r =
    let (frame, e) = write_small payload small in
    let sent : IsSent (length writes) (length payload) frame p q =
      send_frames-IsSent f payload deadline on_closed frame p q writes e c r in
    subst InRange (sym sent.all_counted) (
      add_packets-InRange p.counts sent.frames (length payload)
        (subst InRange (sym empty) (omega arith)))
