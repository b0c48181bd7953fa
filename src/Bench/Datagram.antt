-- ===== src/Bench/Datagram.antt =====
-- The datagram loops of the bench: the sender of the server's `run_download_bench` and the client's
-- `run_upload_bench`, and the receivers of the other two. One round of a loop is what its `select!`
-- answers.
pub mod Counted
use rust_vpn.Prelude.{
  ℕ, ◌+◌, suc, ◌≡◌, Bool, true, false, List, [], ◌∷◌, ◌++◌, Option, some, none, if◌then◌else◌,
  Result, ok, err,
}
use rust_vpn.Bench.{
  BenchError, connection_closed, closed_in_backlog, datagram_failed, timed_out, no_summary, Ran,
  ran, failed, running, Counts, add_packet,
}
use rust_vpn.Client.Summary.{SummaryError}
use rust_vpn.Core.Quic.Backlog.{DatagramBacklog, Round, Waited, returned, waiting, queued_until}
use rust_vpn.Core.Quic.Backlog
use rust_vpn.Core.Quic.Pacer.{Float, EgressPacer, Observed, record_and_wait}
use rust_vpn.Text.{Text}

-- A round of a sender: the timer, the end of the connection, or a call of `send_datagram_wait` with
-- its success, what the backlog's wait sees, and what the pacer sees.
pub data SendRound : Type 0 where
  timer closed : SendRound
  sent : Bool → List Round → Observed → SendRound

-- The variables of a sender, and the number of datagrams that it has sent.
pub record DatagramSend (F : Type 0) : Type 0 where
  pub counts : Counts
  pub backlog : DatagramBacklog
  pub pacer : EgressPacer F
  pub datagrams : ℕ

module _ {F : Type 0} (f : Float F) (payload_bytes deadline : ℕ) where
  -- Behind `queued_until`: `false` leaves the loop before the datagram is counted.
  after_queued_until :
      DatagramSend F
      → Observed
      → Waited
      → (DatagramSend F → Ran (DatagramSend F))
      → Ran (DatagramSend F)
  after_queued_until p seen (returned true) next = next (record p {
    counts = add_packet p.counts payload_bytes;
    pacer = (record_and_wait f payload_bytes true seen p.pacer).0;
  })
  after_queued_until p seen (returned false) next = ran p
  after_queued_until p seen Backlog.connection_closed next = failed closed_in_backlog
  after_queued_until p seen waiting next = running

  send_round :
      DatagramSend F
      → Ran (DatagramSend F)
      → SendRound
      → (DatagramSend F → Ran (DatagramSend F))
      → Ran (DatagramSend F)
  unfolding after_queued_until
  send_round p on_closed timer next = ran p
  send_round p on_closed closed next = on_closed
  send_round p on_closed (sent false rounds seen) next = failed datagram_failed
  send_round p on_closed (sent true rounds seen) next =
      let (backlog, waited) = queued_until p.backlog deadline rounds in
      after_queued_until (record p { backlog = backlog; datagrams = suc p.datagrams }) seen waited
        next

  -- The loop of a sender; what a closed connection means to it is an argument.
  unfoldable pub send_datagrams :
      (DatagramSend F → Ran (DatagramSend F))
      → DatagramSend F
      → List SendRound
      → Ran (DatagramSend F)
  unfolding send_round
  send_datagrams on_closed p [] = running
  send_datagrams on_closed p (r ∷ rs) =
      send_round p (on_closed p) r (λ q. send_datagrams on_closed q rs)

-- `timeout_at(deadline, connection.read_datagram())`: the length of a datagram, an error, or the
-- deadline.
pub data Received : Type 0 where
  datagram : ℕ → Received
  receive_failed deadline_over : Received

-- The loop of the server's `run_upload_bench`.
pub receive_datagrams : Counts → List Received → Ran Counts
receive_datagrams c [] = running
receive_datagrams c (deadline_over ∷ rs) = ran c
receive_datagrams c (receive_failed ∷ rs) = failed datagram_failed
receive_datagrams c (datagram n ∷ rs) = receive_datagrams (add_packet c n) rs

-- The client's `select!` has the task that reads the summary beside these.
pub data ReceivedBeside : Type 0 where
  summary_read : Result SummaryError Text → ReceivedBeside
  beside : Received → ReceivedBeside

-- The loop of the client's `run_download_bench`: it ends with the summary.
pub receive_until_summary : Counts → List ReceivedBeside → Ran (Counts × Text)
receive_until_summary c [] = running
receive_until_summary c (summary_read (ok summary) ∷ rs) = ran (c, summary)
receive_until_summary c (summary_read (err e) ∷ rs) = failed no_summary
receive_until_summary c (beside deadline_over ∷ rs) = failed timed_out
receive_until_summary c (beside receive_failed ∷ rs) = failed datagram_failed
receive_until_summary c (beside (datagram n) ∷ rs) = receive_until_summary (add_packet c n) rs
