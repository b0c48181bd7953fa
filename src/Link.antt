-- ===== src/Link.antt =====
-- crates/litevpn-client/src/main.rs and crates/litevpn-server/src/main.rs: the two ends of a tunnel in
-- stream mode, from their streams to their pumps. Both run the same code: `open_uni`, then
-- `accept_uni`, then the pumps. A schedule says which end goes on, and what its calls answer then.
use rust_vpn.Prelude.{
  ◌≡◌, ◌≢◌, refl, sym, subst, Bool, true, false, Option, none, some, List, [], ◌∷◌, if◌then◌else◌,
  arith, All,
}
use rust_vpn.Core.Quic.Pacer.{Float, EgressPacer}
use rust_vpn.Core.Quic.Pump.{Stop, running, Turn, StreamPump, pump_tun_to_stream}
use rust_vpn.Text.Utf8.{Bytes}

pub data Stage : Type 0 where
  opening accepting pumping stopped : Stage

pub record End (F : Type 0) : Type 0 where
  pub stage : Stage
  -- the pump into the stream that this end opens
  pub pump : StreamPump F

pub data Side : Type 0 where
  client server : Side

pub record Link (F : Type 0) : Type 0 where
  pub client_end : End F
  pub server_end : End F

-- An end goes on. `none` is a call that still waits, `some false` its error.
pub record Moment : Type 0 where
  pub side : Side
  pub opens : Option Bool
  -- `accept_uni`, given the bytes that the peer has written to its stream
  pub accepts : Bytes → Option Bool
  pub turn : Turn
  -- whether `pump_stream_to_tun`, or the signal of the client, ends the `select!`
  pub other_ends : Bool

abbrev after_call : Option Bool → Stage → Stage → Stage
after_call none waiting next = waiting
after_call (some true) waiting next = next
after_call (some false) waiting next = stopped

abbrev after_turn : Stop → Stage
after_turn running = pumping
after_turn _ = stopped

module _ {F : Type 0} (f : Float F) where
  pump_turn : End F → StreamPump F × Stop → End F
  pump_turn e (pump, stop) = record { stage = after_turn stop; pump = pump }

  -- The end `e` in the stage, against a peer that has written `peer`.
  unfoldable pub advance : Moment → Bytes → End F → Stage → End F
  unfolding pump_turn
  advance m peer e opening = record e { stage = after_call m.opens opening accepting }
  advance m peer e accepting = record e { stage = after_call (m.accepts peer) accepting pumping }
  advance m peer e pumping =
      if m.other_ends
      then record e { stage = stopped }
      else pump_turn e (pump_tun_to_stream f e.pump (m.turn ∷ []))
  advance m peer e stopped = e

  on_side : Link F → Moment → Side → Link F
  unfolding advance
  on_side l m client = record l {
    client_end = advance m l.server_end.pump.written l.client_end l.client_end.stage;
  }
  on_side l m server = record l {
    server_end = advance m l.client_end.pump.written l.server_end l.server_end.stage;
  }

  unfoldable pub run_link : Link F → List Moment → Link F
  unfolding on_side
  run_link l [] = l
  run_link l (m ∷ ms) = run_link (on_side l m m.side) ms

  unfoldable pub new_end : EgressPacer F → End F
  new_end pacer = record { stage = opening; pump = record { pacer = pacer; written = [] } }

  -- quinn: "the peer won't be notified that a stream has been opened until the stream is actually used".
  abbrev pub IsUnannounced : Moment → Type 0
  IsUnannounced m = m.accepts [] ≢ some true

  -- An end that has not come to its pumps.
  abbrev pub IsSilent : End F → Type 0
  IsSilent e = (e.stage ≢ pumping) × (e.pump.written ≡ [])

  not_opened : (o : Option Bool) → after_call o opening accepting ≢ pumping
  not_opened none r = ground arith
  not_opened (some true) r = ground arith
  not_opened (some false) r = ground arith

  not_accepted : (o : Option Bool) → o ≢ some true → after_call o accepting pumping ≢ pumping
  not_accepted none u r = ground arith
  not_accepted (some true) u r = u refl
  not_accepted (some false) u r = ground arith

  advance-IsSilent :
      (m : Moment) (peer : Bytes) (e : End F) (stage : Stage)
      → IsUnannounced m
      → peer ≡ []
      → e.stage ≡ stage
      → IsSilent e
      → IsSilent (advance m peer e stage)
  unfolding advance
  advance-IsSilent m peer e opening u p s (h, w) = (not_opened m.opens, w)
  advance-IsSilent m peer e accepting u p s (h, w) =
      (not_accepted (m.accepts peer) (subst (λ b. m.accepts b ≢ some true) (sym p) u), w)
  advance-IsSilent m peer e pumping u p s (h, w) = absurd (h s)
  advance-IsSilent m peer e stopped u p s h = h

  on_side-IsSilent :
      (l : Link F) (m : Moment) (side : Side)
      → IsUnannounced m
      → IsSilent l.client_end × IsSilent l.server_end
      → IsSilent (on_side l m side).client_end × IsSilent (on_side l m side).server_end
  unfolding on_side
  on_side-IsSilent l m client u (c, s) =
      (advance-IsSilent m l.server_end.pump.written l.client_end l.client_end.stage u s.1 refl c, s)
  on_side-IsSilent l m server u (c, s) =
      (c, advance-IsSilent m l.client_end.pump.written l.server_end l.server_end.stage u c.1 refl s)

  run_link-IsSilent :
      (l : Link F) (ms : List Moment)
      → All IsUnannounced ms
      → IsSilent l.client_end × IsSilent l.server_end
      → IsSilent (run_link l ms).client_end × IsSilent (run_link l ms).server_end
  unfolding run_link
  run_link-IsSilent l [] u h = h
  run_link-IsSilent l (m ∷ ms) (u, us) h =
      run_link-IsSilent (on_side l m m.side) ms us (on_side-IsSilent l m m.side u h)

  -- In stream mode neither end comes to its pumps, in whatever order the two go on and however long,
  -- and no byte of a packet is written: each accepts the stream of the other before it writes to its
  -- own, and a connection tells of a stream only when something was written to it.
  pub streams_never_start :
      (client_pacer server_pacer : EgressPacer F) (ms : List Moment)
      → All IsUnannounced ms
      → let l =
          run_link
            (record { client_end = new_end client_pacer; server_end = new_end server_pacer })
            ms in
        IsSilent l.client_end × IsSilent l.server_end
  streams_never_start c s ms u =
      run_link-IsSilent _ ms u
        (unfold new_end in ((λ r. ground arith, refl), (λ r. ground arith, refl)))
