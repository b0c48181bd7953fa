-- ===== src/Server/Schedule/Trust.antt =====
-- crates/litevpn-server/src/main.rs: whom the server lets into the slot and into the pumps.
use rust_vpn.Prelude.{
  ℕ, ◌≡◌, ◌⊎◌, inl, inr, subst, refl, sym, ap, ◌∙◌, Bool, true, false, Option, none, some, Result,
  ok, err, List, [], ◌∷◌, ◌==◌, ◌&&◌, if◌then◌else◌, arith, ==_iff,
}
use rust_vpn.Core.Auth.{AuthMode, AuthError, vpn, bench, max_auth_bytes, server_authenticate}
use rust_vpn.Core.Auth.Exchange.{server_authenticate-Parsed}
use rust_vpn.Core.Auth.Parse.{Parsed}
use rust_vpn.Core.Config.{VpnTransportMode, datagram, stream, load_toml}
use rust_vpn.Core.Config.Server.{ServerConfig, validate}
use rust_vpn.Core.Token.{Loaded, load_token, load_token-Loaded}
use rust_vpn.Server.{
  Phase, absent, authenticating, benching, admitted, numbered, replacing, serving, ended, finished,
  Server, start, after_auth, ensure_datagram_capacity, clean_up,
}
use rust_vpn.Server.Active.{slot_id}
use rust_vpn.Server.Main.{World, Started, start_up}
use rust_vpn.Server.Schedule.{Incoming, Poll, mode_of, authenticate, turn_in, turn, run_tasks}
use rust_vpn.Server.Schedule.Turns.{turn_in-other}
use rust_vpn.Text.{Text}
use rust_vpn.Text.Utf8.{Bytes}

-- Behind the check of the mode and of the datagrams.
unfoldable pub is_let_in : Phase → Bool
is_let_in admitted = true
is_let_in (numbered id) = true
is_let_in (replacing id previous) = true
is_let_in (serving id) = true
is_let_in (ended (some id)) = true
is_let_in (ended none) = false
is_let_in absent = false
is_let_in authenticating = false
is_let_in benching = false
is_let_in finished = false

-- The connection was accepted, and sent in time a well-formed request with the server's token for the
-- mode of the tunnel; and its datagrams hold the packets, where these are datagrams.
pub record IsTrusted (config : ServerConfig) (token : Text) (c : Incoming) : Type 0 where
  pub accepted : c.accepts ≡ true
  pub in_time : c.in_time ≡ true
  pub request : Bytes
  pub sent : c.io.read_to_end max_auth_bytes ≡ some request
  pub asked : Parsed request token vpn
  pub capacity :
      config.vpn_transport ≡ datagram
      → ensure_datagram_capacity c.max_datagram_size config.mtu ≡ true

-- What the answer of the authentication says of the request.
authenticate-vpn :
    (token : Text) (c : Incoming)
    → authenticate token c ≡ some vpn
    → (c.accepts ≡ true) × (c.in_time ≡ true) × ((server_authenticate c.io token).1 ≡ ok vpn)
unfolding authenticate
authenticate-vpn token c e = cases c.accepts c.in_time (server_authenticate c.io token).1 e
  where
    cases :
        (a b : Bool) (r : Result AuthError AuthMode)
        → (if a && b then mode_of r else none) ≡ some vpn
        → (a ≡ true) × (b ≡ true) × (r ≡ ok vpn)
    cases true true (ok m) e = (refl, refl, (cc))
    cases true true (err x) e = cc
    cases true false r e = cc
    cases false b r e = cc

-- Only these two answers let a client in.
after_auth-is_let_in :
    (mode : Option AuthMode) (t : VpnTransportMode) (max : Option ℕ) (mtu : ℕ)
    → is_let_in (after_auth mode t max mtu) ≡ true
    → (mode ≡ some vpn) × (t ≡ datagram → ensure_datagram_capacity max mtu ≡ true)
unfolding is_let_in after_auth
after_auth-is_let_in none t max mtu e = cc
after_auth-is_let_in (some (bench d n p g)) t max mtu e = cc
after_auth-is_let_in (some vpn) stream max mtu e = (refl, λ s. cc)
after_auth-is_let_in (some vpn) datagram max mtu e = (refl, λ s. ground arith)

module _ (config : ServerConfig) (token : Text) (incoming : ℕ → Incoming) where
  admitted-IsTrusted :
      (c : Incoming)
      → is_let_in
          (after_auth (authenticate token c) config.vpn_transport c.max_datagram_size config.mtu)
        ≡ true
      → IsTrusted config token c
  admitted-IsTrusted c e =
      let (asked, capacity) = after_auth-is_let_in (authenticate token c) _ _ _ e in
      let (accepted, in_time, answered) = authenticate-vpn token c asked in
      let (_, (request, sent, parsed)) =
        server_authenticate-Parsed c.io token vpn (server_authenticate c.io token).0 (
          ap (λ (r : Result AuthError AuthMode). ((server_authenticate c.io token).0, r))
            answered) in
      record {
        accepted = accepted;
        in_time = in_time;
        request = request;
        sent = sent;
        asked = parsed;
        capacity = capacity;
      }

  -- All that are let in are trusted.
  abbrev pub AllTrusted : Server → Type 0
  AllTrusted s = (m : ℕ) → is_let_in (s.tasks m) ≡ true → IsTrusted config token (incoming m)

  -- In its own turn a task that was not let in before is trusted if it is now.
  turn_in-own :
      (s : Server) (n : ℕ) (phase : Phase)
      → is_let_in ((turn_in config token incoming s n phase).tasks n) ≡ true
      → (s.tasks n ≡ phase)
      → (is_let_in phase ≡ true) ⊎ IsTrusted config token (incoming n)
  unfolding turn_in is_let_in
  turn_in-own s n absent h e = absurd (ground arith)
  turn_in-own s n authenticating h e =
      inr (admitted-IsTrusted (incoming n) (unfold is_let_in in ground arith))
  turn_in-own s n benching h e = absurd (ground arith)
  turn_in-own s n admitted h e = inl refl
  turn_in-own s n (numbered id) h e = inl refl
  turn_in-own s n (replacing id previous) h e = inl refl
  turn_in-own s n (serving id) h e = inl refl
  turn_in-own s n (ended (some id)) h e = inl refl
  turn_in-own s n (ended none) h e = absurd (unfold clean_up in ground arith)
  turn_in-own s n finished h e = absurd (ground arith)

  turn_in-AllTrusted :
      (s : Server) (n : ℕ)
      → AllTrusted s
      → AllTrusted (turn_in config token incoming s n (s.tasks n))
  turn_in-AllTrusted s n all m h = cases (m == n) refl
    where
      own : m ≡ n → IsTrusted config token (incoming m)
      own same =
          subst (λ k. IsTrusted config token (incoming k)) (sym same)
            (elim (turn_in-own s n (s.tasks n)
              (subst
                (λ k. is_let_in ((turn_in config token incoming s n (s.tasks n)).tasks k) ≡ true)
                same h)
              refl) [ inl before ↦ all n before | inr trusted ↦ trusted ])

      cases : (b : Bool) → (m == n) ≡ b → IsTrusted config token (incoming m)
      cases true o = own ((==_iff m n).0 o)
      cases false o =
          all m (ap is_let_in (sym (turn_in-other config token incoming s n m (s.tasks n) o)) ∙ h)

  turn-AllTrusted :
      (s : Server) (p : Poll) → AllTrusted s → AllTrusted (turn config token incoming s p)
  unfolding turn
  turn-AllTrusted s p all = cases p.ready
    where
      cases :
          (ready : Bool)
          → AllTrusted
              (if ready then turn_in config token incoming s p.task (s.tasks p.task) else s)
      cases true = turn_in-AllTrusted s p.task all
      cases false = all

  run_tasks-AllTrusted :
      (s : Server) (ps : List Poll)
      → AllTrusted s
      → AllTrusted (run_tasks config token incoming s ps)
  unfolding run_tasks
  run_tasks-AllTrusted s [] all = all
  run_tasks-AllTrusted s (p ∷ ps) all =
      run_tasks-AllTrusted (turn config token incoming s p) ps (turn-AllTrusted s p all)

slot-is_let_in : (phase : Phase) (i : ℕ) → slot_id phase ≡ some i → is_let_in phase ≡ true
unfolding slot_id is_let_in
slot-is_let_in phase i e = ground arith

-- What a server that has started has read.
start_up-read :
    {I : Type 0} (w : World I) (config : ServerConfig) (started : Started)
    → load_toml w.from_str w.config_file ≡ ok config
    → start_up w ≡ ok started
    → (validate config ≡ ok tt)
      × (load_token w.token_file ≡ ok started.token)
      × (started.server ≡ start)
unfolding start_up
start_up-read w config started c e = ground arith

started-AllTrusted :
    (config : ServerConfig) (token : Text) (incoming : ℕ → Incoming)
    → AllTrusted config token incoming start
started-AllTrusted config token incoming m h = absurd (unfold is_let_in in cc)

-- The whole server, from its files to its clients: in whatever order the tasks run, a client that has
-- a number from taking the slot to leaving it has sent, in time, a request for the tunnel with the token
-- that the server's token file holds, of 32 bytes or more: the token is its first line, and it has no
-- other. Where packets travel as datagrams, its connection holds packets of the whole MTU, or says
-- nothing of their size.
pub clients-IsTrusted :
    {I : Type 0} (w : World I) (config : ServerConfig) (started : Started) (incoming : ℕ → Incoming)
    (ps : List Poll) (n i : ℕ)
    → load_toml w.from_str w.config_file ≡ ok config
    → start_up w ≡ ok started
    → slot_id ((run_tasks config started.token incoming started.server ps).tasks n) ≡ some i
    → Loaded w.token_file started.token × IsTrusted config started.token (incoming n)
clients-IsTrusted w config started incoming ps n i c up e =
    let (valid, token, fresh) = start_up-read w config started c up in
    let first : AllTrusted config started.token incoming started.server =
      subst (AllTrusted config started.token incoming) (sym fresh)
        (started-AllTrusted config started.token incoming) in
    (
      load_token-Loaded w.token_file started.token token,
      run_tasks-AllTrusted config started.token incoming started.server ps first n
          (slot-is_let_in _ i e),
    )
