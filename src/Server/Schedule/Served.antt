-- ===== src/Server/Schedule/Served.antt =====
-- crates/litevpn-server/src/main.rs: a client with the server's token comes to its transport, whatever
-- the other tasks do.
use rust_vpn.Prelude.{
  ℕ, ◌-◌, ◌≡◌, refl, sym, ap, ◌∙◌, Bool, true, false, none, some, List, [], ◌∷◌, ◌==◌, ◌&&◌,
  if◌then◌else◌, arith, length, ==_iff, list_eq_refl,
}
use rust_vpn.Core.Auth.{vpn, max_auth_bytes, request, answer, server_authenticate}
use rust_vpn.Core.Auth.RoundTrip.{IsToken, parse_request-request}
use rust_vpn.Core.Config.{VpnTransportMode, datagram, stream}
use rust_vpn.Core.Config.Server.{ServerConfig}
use rust_vpn.Server.{
  Phase, absent, authenticating, benching, admitted, numbered, replacing, serving, ended, finished,
  Server, start, after_auth, ensure_datagram_capacity, take_id, replace, close_previous, clean_up,
  run_start,
}
use rust_vpn.Server.Active.{IsShort, client-Fate}
use rust_vpn.Server.Fates.{Fate, served_id}
use rust_vpn.Server.Schedule.{Incoming, Poll, authenticate, turn_in, turn, run_tasks, turns_of}
use rust_vpn.Server.Schedule.Steps.{run_tasks-Reached}
use rust_vpn.Server.Schedule.Trust.{is_let_in}
use rust_vpn.Server.Schedule.Turns.{turns_left, turn_in-other}
use rust_vpn.Text.{Text}

-- A client that asks for the tunnel with the server's token, in time and over a connection that works,
-- with datagrams that hold the packets where these are datagrams.
pub record IsWelcome (config : ServerConfig) (token : Text) (c : Incoming) : Type 0 where
  pub accepted : c.accepts ≡ true
  pub in_time : c.in_time ≡ true
  pub opens : c.io.opens ≡ true
  pub writes : c.io.writes ≡ true
  pub finishes : c.io.finishes ≡ true
  pub sent : c.io.read_to_end max_auth_bytes ≡ some (request token vpn)
  pub capacity :
      config.vpn_transport ≡ datagram
      → ensure_datagram_capacity c.max_datagram_size config.mtu ≡ true

-- Where such a client may be.
unfoldable is_on_way : Phase → Bool
unfolding is_let_in
is_on_way absent = true
is_on_way authenticating = true
is_on_way finished = true
is_on_way phase = is_let_in phase

module _ (config : ServerConfig) (token : Text) (is_token : IsToken token) where
  welcome-authenticate : (c : Incoming) → IsWelcome config token c → authenticate token c ≡ some vpn
  unfolding authenticate server_authenticate answer
  welcome-authenticate c w =
      rw
        (
          w.accepted,
          w.in_time,
          w.opens,
          w.sent,
          parse_request-request token vpn is_token tt,
          w.writes,
          w.finishes,
          list_eq_refl token,
        )
        refl

  welcome-admitted :
      (c : Incoming)
      → IsWelcome config token c
      → after_auth (authenticate token c) config.vpn_transport c.max_datagram_size config.mtu
        ≡ admitted
  welcome-admitted c w = rw (welcome-authenticate c w) (cases config.vpn_transport w.capacity)
    where
      cases :
          (t : VpnTransportMode)
          → (t ≡ datagram → ensure_datagram_capacity c.max_datagram_size config.mtu ≡ true)
          → after_auth (some vpn) t c.max_datagram_size config.mtu ≡ admitted
      cases stream capacity = unfold after_auth in refl
      cases datagram capacity = unfold after_auth in rw (capacity refl)

  module _ (incoming : ℕ → Incoming) (n : ℕ) (welcome : IsWelcome config token (incoming n)) where
    -- In its own turn the client is one call closer to its end.
    own_turn :
        (s : Server) (phase : Phase)
        → s.tasks n ≡ phase
        → is_on_way phase ≡ true
        → let after = (turn_in config token incoming s n phase).tasks n in
          (turns_left after ≡ turns_left phase - 1) × (is_on_way after ≡ true)
    unfolding turn_in turns_left is_on_way
    own_turn s absent e h = ground arith
    own_turn s authenticating e h = rw (welcome-admitted (incoming n) welcome) (ground arith)
    own_turn s benching e h = absurd (cc)
    own_turn s admitted e h = unfold take_id in ground arith
    own_turn s (numbered id) e h = unfold replace in ground arith
    own_turn s (replacing id none) e h = unfold close_previous in ground arith
    own_turn s (replacing id (some p)) e h = unfold close_previous in ground arith
    own_turn s (serving id) e h = ground arith
    own_turn s (ended none) e h = absurd (cc)
    own_turn s (ended (some id)) e h = unfold clean_up in ground arith
    own_turn s finished e h = (ground arith)

    served_turn_in :
        (s : Server) (m : ℕ) (own : Bool)
        → (n == m) ≡ own
        → is_on_way (s.tasks n) ≡ true
        → let after = (turn_in config token incoming s m (s.tasks m)).tasks n in
          (turns_left after ≡ turns_left (s.tasks n) - (if own then 1 else 0))
          × (is_on_way after ≡ true)
    served_turn_in s m true o h = rw (sym ((==_iff n m).0 o)) (own_turn s (s.tasks n) refl h)
    served_turn_in s m false o h =
        rw (turn_in-other config token incoming s m n (s.tasks m) o) (omega arith, h)

    served_turn :
        (s : Server) (p : Poll)
        → is_on_way (s.tasks n) ≡ true
        → let after = (turn config token incoming s p).tasks n in
          (turns_left after ≡ turns_left (s.tasks n) - (if p.ready && (n == p.task) then 1 else 0))
          × (is_on_way after ≡ true)
    unfolding turn
    served_turn s p h = cases p.ready
      where
        cases :
            (ready : Bool)
            → let after =
                (if ready then turn_in config token incoming s p.task (s.tasks p.task) else s).tasks
                  n in
              (turns_left after
                ≡ turns_left (s.tasks n) - (if ready && (n == p.task) then 1 else 0))
              × (is_on_way after ≡ true)
        cases true = served_turn_in s p.task (n == p.task) refl h
        cases false = (omega arith, h)

    served_turns :
        (s : Server) (ps : List Poll)
        → is_on_way (s.tasks n) ≡ true
        → let after = (run_tasks config token incoming s ps).tasks n in
          (turns_left after ≡ turns_left (s.tasks n) - turns_of n ps) × (is_on_way after ≡ true)
    unfolding run_tasks turns_of
    served_turns s [] h = (omega arith, h)
    served_turns s (p ∷ ps) h =
        let (one, on) = served_turn s p h in
        let (rest, last) = served_turns (turn config token incoming s p) ps on in
        (ground arith, last)

    serving_of :
        (phase : Phase)
        → turns_left phase ≡ 2
        → is_on_way phase ≡ true
        → (i : ℕ) × (phase ≡ serving i)
    unfolding turns_left is_on_way
    serving_of (serving i) l h = (i, refl)
    serving_of benching l h = absurd (cc)
    serving_of phase l h = absurd (ground arith)

  -- Nobody keeps a welcome client out. The server's token is one line of text; the client sends, in time
  -- and over calls that do not fail, the request for the tunnel with this token, and its datagrams hold
  -- the packets where packets travel as datagrams. Then, when five of the calls that its task waits for
  -- have returned, in whatever order the other tasks are polled, the task has come to its transport: to
  -- the pumps in datagram mode, and in stream mode to the opening of the streams in front of them. There
  -- it is the active client, or a later one has replaced it and has closed its connection or is about
  -- to. The polls are fewer than 64-bit numbers count.
  pub client_is_served :
      (incoming : ℕ → Incoming) (ps : List Poll) (n : ℕ)
      → IsWelcome config token (incoming n)
      → IsShort (length ps)
      → turns_of n ps ≡ 5
      → let t = run_tasks config token incoming start ps in
        (i : ℕ) × (t.tasks n ≡ serving i) × Fate t.active t.closed t.tasks n i
  client_is_served incoming ps n welcome short five =
      let (left, on) = served_turns incoming n welcome start ps (unfold is_on_way in refl) in
      let two : turns_left ((run_tasks config token incoming start ps).tasks n) ≡ 2 =
        left ∙ (unfold turns_left in omega (arith, five)) in
      let (i, e) = serving_of incoming n welcome _ two on in
      let (j, r, l) =
        run_tasks-Reached config token incoming 0 start ps (0, run_start, omega arith) in
      (i, e, client-Fate n i r (omega arith) (unfold served_id in ap served_id e))
