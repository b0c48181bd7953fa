-- ===== src/Bench/Datagram/Counted.antt =====
-- What the datagram loops of the bench have counted, and when they end.
use rust_vpn.Prelude.{
  ℕ, suc, ◌+◌, ◌*◌, ◌^◌, ◌≤◌, ◌<◌, ◌≡◌, ◌≢◌, refl, sym, ap, ◌∙◌, ◌⊎◌, inl, inr, true, false, List,
  [], ◌∷◌, ◌++◌, subst, arith, All, length,
}
use rust_vpn.Bench.{
  Ran, ran, running, Counts, nothing, add_packet, add_packets, add_lengths, add_packets-counts,
  add_packets-InRange,
}
use rust_vpn.Bench.Datagram.{
  SendRound, timer, closed, sent, DatagramSend, after_queued_until, send_round, send_datagrams,
  Received, datagram, receive_failed, deadline_over, receive_datagrams,
}
use rust_vpn.Core.Quic.Backlog.{DatagramBacklog, Round, Waited, returned, waiting, queued_until}
use rust_vpn.Core.Quic.Backlog
use rust_vpn.Core.Quic.Backlog.Bound.{queued_until_deadline}
use rust_vpn.Core.Quic.Pacer.{Float, Observed}

-- A sender that is done: it has counted the datagrams that it has sent, but for the last one where the
-- deadline came while that one waited in the backlog.
pub record IsTallied {F : Type 0} (rounds n : ℕ) (p q : DatagramSend F) : Type 0 where
  pub counted : ℕ
  pub few : counted ≤ rounds
  pub all_counted : q.counts ≡ add_packets p.counts counted n
  pub all_sent : (q.datagrams ≡ p.datagrams + counted) ⊎ (q.datagrams ≡ p.datagrams + suc counted)

module _ {F : Type 0} (f : Float F) (payload_bytes deadline : ℕ)
    (on_closed : DatagramSend F → Ran (DatagramSend F)) where
  -- A closed connection ends the loop, with the counts so far or with an error.
  abbrev pub Closes : Type 0
  Closes = (p q : DatagramSend F) → on_closed p ≡ ran q → q ≡ p

  none-IsTallied : (rounds : ℕ) (p : DatagramSend F) → IsTallied rounds payload_bytes p p
  none-IsTallied rounds p = record {
    counted = 0;
    few = omega arith;
    all_counted = unfold add_packets in refl;
    all_sent = inl (omega arith);
  }

  one-IsTallied :
      (rounds : ℕ) (p p' q : DatagramSend F)
      → p'.counts ≡ add_packet p.counts payload_bytes
      → p'.datagrams ≡ suc p.datagrams
      → IsTallied rounds payload_bytes p' q
      → IsTallied (suc rounds) payload_bytes p q
  one-IsTallied rounds p p' q e g s = record {
    counted = suc s.counted;
    few = omega (arith, s.few);
    all_counted =
        s.all_counted
        ∙ ap (λ (c : Counts). add_packets c s.counted payload_bytes) e
        ∙ unfold add_packets in refl;
    all_sent = elim s.all_sent [ inl a ↦ inl (omega arith) | inr a ↦ inr (omega arith) ];
  }

  last_uncounted :
      (rounds : ℕ) (p p' : DatagramSend F)
      → p'.counts ≡ p.counts
      → p'.datagrams ≡ suc p.datagrams
      → IsTallied rounds payload_bytes p p'
  last_uncounted rounds p p' e g = record {
    counted = 0;
    few = omega arith;
    all_counted = unfold add_packets in e;
    all_sent = inr (omega arith);
  }

  after_queued_until-IsTallied :
      (rounds : ℕ) (p p' q : DatagramSend F) (seen : Observed) (w : Waited)
      (next : DatagramSend F → Ran (DatagramSend F))
      → p'.counts ≡ p.counts
      → p'.datagrams ≡ suc p.datagrams
      → ((p1 : DatagramSend F) → next p1 ≡ ran q → IsTallied rounds payload_bytes p1 q)
      → after_queued_until f payload_bytes deadline p' seen w next ≡ ran q
      → IsTallied (suc rounds) payload_bytes p q
  unfolding after_queued_until
  after_queued_until-IsTallied rounds p p' q seen (returned true) next e g k r =
      one-IsTallied rounds p _ q (ap (λ (c : Counts). add_packet c payload_bytes) e) g (k _ r)
  after_queued_until-IsTallied rounds p p' q seen (returned false) next e g k r =
      subst (IsTallied (suc rounds) payload_bytes p) (ground arith) (last_uncounted _ p p' e g)
  after_queued_until-IsTallied rounds p p' q seen Backlog.connection_closed next e g k r = cc
  after_queued_until-IsTallied rounds p p' q seen waiting next e g k r = cc

  send_datagrams-IsTallied :
      (p q : DatagramSend F) (rs : List SendRound)
      → Closes
      → send_datagrams f payload_bytes deadline on_closed p rs ≡ ran q
      → IsTallied (length rs) payload_bytes p q
  unfolding send_datagrams send_round
  send_datagrams-IsTallied p q [] c r = cc
  send_datagrams-IsTallied p q (timer ∷ rs) c r =
      subst (IsTallied (suc (length rs)) payload_bytes p) (ground arith) (none-IsTallied _ p)
  send_datagrams-IsTallied p q (closed ∷ rs) c r =
      subst (IsTallied (suc (length rs)) payload_bytes p) (sym (c p q r)) (none-IsTallied _ p)
  send_datagrams-IsTallied p q (sent false rounds seen ∷ rs) c r = cc
  send_datagrams-IsTallied p q (sent true rounds seen ∷ rs) c r =
      after_queued_until-IsTallied (length rs) p _ q seen (queued_until p.backlog deadline rounds).1
        (λ q'. send_datagrams f payload_bytes deadline on_closed q' rs) refl refl
        (λ p1 h. send_datagrams-IsTallied p1 q rs c h) r

  -- A round whose wait for the backlog sees the deadline pass, if it has one.
  abbrev pub Settles : SendRound → Type 0
  Settles timer = Unit {0}
  Settles closed = Unit {0}
  Settles (sent ended rounds seen) =
      (before after : List Round) × (r : Round) × (rounds ≡ before ++ r ∷ after)
      × (deadline ≤ r.now)

  after_queued_until_ends :
      (p : DatagramSend F) (seen : Observed) (w : Waited)
      (next : DatagramSend F → Ran (DatagramSend F))
      → w ≢ waiting
      → ((q : DatagramSend F) → next q ≢ running)
      → after_queued_until f payload_bytes deadline p seen w next ≢ running
  unfolding after_queued_until
  after_queued_until_ends p seen (returned true) next h k = k _
  after_queued_until_ends p seen (returned false) next h k = λ e. cc
  after_queued_until_ends p seen Backlog.connection_closed next h k = λ e. cc
  after_queued_until_ends p seen waiting next h k = absurd (h refl)

  -- The loop of a datagram sender comes to an end: when its timer fires it is over, if the end of the
  -- connection is an end to it and the clock has been seen past the deadline in each wait for the
  -- backlog before.
  pub send_datagrams_ends :
      (p : DatagramSend F) (before after : List SendRound)
      → ((q : DatagramSend F) → on_closed q ≢ running)
      → All Settles before
      → send_datagrams f payload_bytes deadline on_closed p (before ++ timer ∷ after) ≢ running
  unfolding send_datagrams send_round
  send_datagrams_ends p [] after c h = λ e. cc
  send_datagrams_ends p (timer ∷ rs) after c h = λ e. cc
  send_datagrams_ends p (closed ∷ rs) after c h = c p
  send_datagrams_ends p (sent false rounds seen ∷ rs) after c h = λ e. cc
  send_datagrams_ends p (sent true rounds seen ∷ rs) after c h =
      let (earlier, later, r, split, past) = h.0 in
      after_queued_until_ends _ seen (queued_until p.backlog deadline rounds).1 _
        (rw split ((queued_until_deadline p.backlog deadline earlier later r past).0))
        (λ q. send_datagrams_ends q rs after c h.1)

-- A datagram sender that is done has counted its bytes as its packets times the payload, and its packets
-- are the datagrams that it has sent, or one fewer: the last is not counted where the deadline came
-- while it waited in the backlog. It holds for fewer rounds, and fewer bytes in them, than 64-bit
-- counters can tell.
pub send_datagrams_counts :
    {F : Type 0} (f : Float F) (payload_bytes deadline : ℕ)
    (on_closed : DatagramSend F → Ran (DatagramSend F)) (p q : DatagramSend F) (rs : List SendRound)
    → Closes f payload_bytes deadline on_closed
    → p.counts ≡ nothing
    → p.datagrams ≡ 0
    → length rs < 2 ^ 64
    → length rs * payload_bytes < 2 ^ 64
    → send_datagrams f payload_bytes deadline on_closed p rs ≡ ran q
    → (q.counts.bytes ≡ q.counts.packets * payload_bytes)
      × (q.counts.packets ≤ q.datagrams)
      × (q.datagrams ≤ suc q.counts.packets)
send_datagrams_counts f n deadline on_closed p q rs c empty none-IsSent few small r =
    let t : IsTallied (length rs) n p q =
      send_datagrams-IsTallied f n deadline on_closed p q rs c r in
    let all : q.counts ≡ add_packets nothing t.counted n =
      t.all_counted ∙ ap (λ (k : Counts). add_packets k t.counted n) empty in
    let (packets, bytes) = add_packets-counts nothing t.counted n in
    let (packets_fit, bytes_fit) = add_packets-InRange nothing t.counted n (omega arith) in
    let less : t.counted * n ≤ length rs * n = grind (arith, t.few) in
    let packets_are : q.counts.packets ≡ t.counted =
      ap (λ (k : Counts). k.packets) all ∙ omega (arith, packets, packets_fit, t.few) in
    let bytes_are : q.counts.bytes ≡ t.counted * n =
      ap (λ (k : Counts). k.bytes) all ∙ omega (arith, bytes, bytes_fit, less) in
    (
      bytes_are ∙ ap (λ (k : ℕ). k * n) (sym packets_are),
      elim t.all_sent [ inl a ↦ omega (arith, packets_are) | inr a ↦ omega (arith, packets_are) ],
      elim t.all_sent [ inl a ↦ omega (arith, packets_are) | inr a ↦ omega (arith, packets_are) ],
    )

-- The lengths of the datagrams that are read before the deadline or an error.
pub lengths : List Received → List ℕ
lengths [] = []
lengths (datagram n ∷ rs) = n ∷ lengths rs
lengths (receive_failed ∷ rs) = []
lengths (deadline_over ∷ rs) = []

receive_datagrams-lengths :
    (c c' : Counts) (rs : List Received)
    → receive_datagrams c rs ≡ ran c'
    → c' ≡ add_lengths c (lengths rs)
unfolding receive_datagrams lengths add_lengths
receive_datagrams-lengths c c' [] r = cc
receive_datagrams-lengths c c' (datagram n ∷ rs) r =
    receive_datagrams-lengths (add_packet c n) c' rs r
receive_datagrams-lengths c c' (receive_failed ∷ rs) r = cc
receive_datagrams-lengths c c' (deadline_over ∷ rs) r = ground arith
