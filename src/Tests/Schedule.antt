-- ===== src/Tests/Schedule.antt =====
-- A whole server with one client.
use rust_vpn.Prelude.{ℕ, ◌≡◌, refl, true, false, some, ok, List, [], ◌∷◌, arith}
use rust_vpn.Core.Auth.{Io, vpn, request, answer, parse_request, server_authenticate}
use rust_vpn.Core.Auth.RoundTrip.{IsToken, parse_request-request}
use rust_vpn.Core.Config.Server.{ServerConfig}
use rust_vpn.Core.Config.Server
use rust_vpn.Core.Config.{
  load_toml, validate_common, validate_udp_socket_buffers, validate_egress_target,
  validate_datagram_backlog, is_blank,
}
use rust_vpn.Core.Quic.Socket.{new_socket, bind, create_udp_socket}
use rust_vpn.Core.{auth_ok}
use rust_vpn.Core.Token.{Loaded, load_token}
use rust_vpn.Server.{
  Server, start, move, authenticating, admitted, serving, after_auth, ensure_datagram_capacity,
  take_id, replace,
}
use rust_vpn.Server.Active.{slot_id}
use rust_vpn.Server.Main.{World, Started, start_up, tun_options}
use rust_vpn.Server.Schedule.{Incoming, Poll, authenticate, turn, run_tasks, turns_of}
use rust_vpn.Server.Schedule.Served.{IsWelcome, client_is_served}
use rust_vpn.Server.Fates.{Fate}
use rust_vpn.Server.Schedule.Trust.{IsTrusted, clients-IsTrusted}
use rust_vpn.Tests.Core.{blank_transport}
use rust_vpn.Text.{Text, chars, trim}
use rust_vpn.Text.Utf8.{as_bytes}

abbrev config : ServerConfig
config = Server.default

abbrev pub token : Text
token = chars "0123456789abcdef0123456789abcdef"

abbrev io : Io
io = record {
  opens = true;
  writes = true;
  finishes = true;
  read_to_end = λ limit. some (request token vpn);
}

abbrev incoming : ℕ → Incoming
incoming n = record { accepts = true; io = io; in_time = true; max_datagram_size = some 1400 }

abbrev world : World ℕ
world = record {
  config_file = some (chars "listen = 0.0.0.0:443");
  from_str = λ raw. some config;
  token_file = some (chars " 0123456789abcdef0123456789abcdef\n");
  tun_created = true;
  listen_is_ipv6 = some false;
  tls = ok (record { identity = 7; alpn_protocols = []; transport = blank_transport });
  socket = λ c. true;
  runtime = true;
  endpoint = true;
}

abbrev started : Started
started = record {
  token = token;
  tun = tun_options config;
  socket = new_socket ∷ bind (chars "0.0.0.0:443") ∷ [];
  server = start;
}

reads : load_toml world.from_str world.config_file ≡ ok config
unfolding load_toml
reads = refl

starts : start_up world ≡ ok started
unfolding start_up load_toml Server.validate validate_common validate_udp_socket_buffers
    validate_egress_target validate_datagram_backlog is_blank trim load_token as_bytes
    create_udp_socket
starts = refl

pub token-IsToken : IsToken token
token-IsToken = record { not_empty = λ e. cc; one_line = omega arith; is_text = ground arith }

parses : parse_request (request token vpn) ≡ ok (token, vpn)
parses = parse_request-request token vpn token-IsToken tt

authenticates : server_authenticate io token ≡ (some auth_ok, ok vpn)
unfolding server_authenticate answer
authenticates = rw parses

admits : authenticate token (incoming 0) ≡ some vpn
unfolding authenticate
admits = rw authenticates

abbrev asking : Server
asking = move start 0 authenticating

abbrev ready : ℕ → Poll
ready n = record { task = n; ready = true }

abbrev pending : ℕ → Poll
pending n = record { task = n; ready = false }

abbrev four : List Poll
four = ready 0 ∷ ready 0 ∷ ready 0 ∷ ready 0 ∷ []

abbrev asked : Server
asked = move asking 0 admitted

asks : turn config token incoming start (ready 0) ≡ asking
unfolding turn
asks = refl

is_admitted : turn config token incoming asking (ready 0) ≡ asked
unfolding turn after_auth ensure_datagram_capacity
is_admitted = rw admits

takes_slot :
    slot_id
      ((turn config token incoming (turn config token incoming asked (ready 0)) (ready 0)).tasks 0)
    ≡ some 1
unfolding turn slot_id take_id replace
takes_slot = refl

serves : slot_id ((run_tasks config token incoming start four).tasks 0) ≡ some 1
unfolding run_tasks
serves = rw (asks, is_admitted) takes_slot

clients-IsTrusted_example : Loaded world.token_file token × IsTrusted config token (incoming 0)
clients-IsTrusted_example =
    clients-IsTrusted world config started incoming four 0 1 reads starts serves

welcome : IsWelcome config token (incoming 0)
welcome = record {
  accepted = refl;
  in_time = refl;
  opens = refl;
  writes = refl;
  finishes = refl;
  sent = refl;
  capacity = λ d. unfold ensure_datagram_capacity in refl;
}

-- A second client is polled among the polls of the first, whose pumps do not return.
abbrev both : List Poll
both =
    ready 0
    ∷ ready 1
    ∷ ready 0
    ∷ pending 0
    ∷ ready 0
    ∷ ready 1
    ∷ ready 0
    ∷ ready 0
    ∷ pending 0
    ∷ ready 1
    ∷ []

client_is_served_example :
    let t = run_tasks config token incoming start both in
    (i : ℕ) × (t.tasks 0 ≡ serving i) × Fate t.active t.closed t.tasks 0 i
client_is_served_example =
    client_is_served config token token-IsToken incoming both 0 welcome (omega arith)
      (unfold turns_of in refl)
