-- ===== src/Tests/Core.antt =====
-- Configuration, token and authentication at concrete inputs.
use rust_vpn.Prelude.{
  ◌≢◌, ◌++◌, ℕ, ◌+◌, ◌*◌, ◌/◌, ◌%◌, ◌≤◌, ◌≡◌, ◌↔◌, refl, Bool, List, true, false, [], ◌∷◌, Option,
  none, some, ok, err, arith, ltb, leb, length, All, if◌then◌else◌,
}
use rust_vpn.Core.Auth.{
  AuthMode, vpn, bench, download, parse_request, request, Io, server_authenticate, bad_magic,
  payload_out_of_range, invalid_token, rejected, max_auth_bytes,
}
use rust_vpn.Core.Auth.Refused.{broken_token_refused}
use rust_vpn.Text.{newline}
use rust_vpn.Core.Auth.Exchange.{exchange, exchange_lem, server_authenticate-Parsed}
use rust_vpn.Core.Auth.Parse.{Parsed, parse_request_iff}
use rust_vpn.Core.Auth.RoundTrip.{parse_request-request}
use rust_vpn.Core.{auth_ok, alpn}
use rust_vpn.Core.Tls.{
  QuicConfig, Trusts, client_config, read_certs, add_roots, client_config-Trusts,
}
use rust_vpn.Core.Config.{bbr, token_too_short}
use rust_vpn.Core.Config.Client
use rust_vpn.Core.Config.Server
use rust_vpn.Core.Token.{load_token}
use rust_vpn.Core.Transport.{TransportConfig, transport_config}
use rust_vpn.Keygen.{IsHexDigit, token_file, load_token-token_file}
use rust_vpn.Text.{Text, chars, trim, strip_prefix, strip_suffix}
use rust_vpn.Text.Lines.{lines}
use rust_vpn.Text.Number.{parse_u64}
use rust_vpn.Text.Utf8.{Bytes, as_bytes, from_utf8}
use rust_vpn.Text.Words.{words}

server_validate_iff_example :
    (Server.validate Server.default ≡ ok tt) ↔ Server.IsValid Server.default
server_validate_iff_example = Server.server_validate_iff Server.default

client_validate_iff_example :
    (Client.validate Client.default ≡ ok tt) ↔ Client.IsValid Client.default
client_validate_iff_example = Client.client_validate_iff Client.default

abbrev token : Text
token = chars "0123456789abcdef0123456789abcdef"

abbrev token_line : Text
token_line = chars " 0123456789abcdef0123456789abcdef\n"

token_loads : load_token (some token_line) ≡ ok token
unfolding load_token trim as_bytes
token_loads = refl

abbrev hex_digit : ℕ → ℕ
hex_digit d = if ltb d 10 then b'0' + d else b'a' + (d % 16) % 6

-- A printer of two digits a byte, for the key generator's theorem.
hex_print : Bytes → Text
hex_print [] = []
hex_print (b ∷ bs) = hex_digit (b / 16 % 16) ∷ hex_digit (b % 16) ∷ hex_print bs

length-hex_print : (b : Bytes) → length (hex_print b) ≡ 2 * length b
unfolding hex_print
length-hex_print [] = refl
length-hex_print (b ∷ bs) = omega (arith, length-hex_print bs)

hex_digit-IsHexDigit : (d : ℕ) → IsHexDigit (hex_digit d)
hex_digit-IsHexDigit d = ground arith

hex_print-IsHexDigit : (b : Bytes) → All IsHexDigit (hex_print b)
unfolding hex_print
hex_print-IsHexDigit [] = tt
hex_print-IsHexDigit (b ∷ bs) =
    (hex_digit-IsHexDigit _, (hex_digit-IsHexDigit _, hex_print-IsHexDigit bs))

load_token-token_file_example :
    load_token (some (token_file hex_print (1 ∷ 2 ∷ 255 ∷ []))) ≡ err token_too_short
load_token-token_file_example =
    load_token-token_file hex_print length-hex_print hex_print-IsHexDigit (1 ∷ 2 ∷ 255 ∷ [])

abbrev pub blank_transport : TransportConfig
blank_transport = record {
  max_concurrent_bidi_streams = 100;
  max_concurrent_uni_streams = 100;
  keep_alive_interval = none;
  max_idle_timeout = none;
  initial_mtu = 1200;
  receive_window = 0;
  stream_receive_window = 0;
  send_window = 0;
  enable_segmentation_offload = false;
  send_fairness = true;
  congestion_controller_factory = bbr;
  datagram_receive_buffer_size = none;
  datagram_send_buffer_size = 0;
}

abbrev download_mode : AuthMode
download_mode = bench download 3 1200 none

abbrev download_request : Bytes
download_request = chars "LVPN1 abcdef\nbench download 3 1200\n"

download_parses : parse_request download_request ≡ ok (chars "abcdef", download_mode)
unfolding parse_request strip_prefix strip_suffix from_utf8 lines words parse_u64
    rust_vpn.Core.Auth.parse_lines rust_vpn.Core.Auth.parse_mode_line rust_vpn.Core.Auth.parse_mode
    rust_vpn.Core.Auth.parse_parts rust_vpn.Core.Auth.parse_direction rust_vpn.Core.Auth.parse_field
    rust_vpn.Core.Auth.parse_target
download_parses = refl

parse_request-request_example :
    parse_request (request token download_mode) ≡ ok (token, download_mode)
parse_request-request_example =
    parse_request-request token download_mode
      (record { not_empty = λ e. cc; one_line = omega arith; is_text = ground arith }) (omega arith)

bad_magic_test : parse_request (chars "bad token\n") ≡ err bad_magic
unfolding parse_request strip_prefix
bad_magic_test = refl

abbrev server_io : Io
server_io = record {
  opens = true;
  writes = true;
  finishes = true;
  read_to_end = λ limit. some download_request;
}

server_admits : server_authenticate server_io (chars "abcdef") ≡ (some auth_ok, ok download_mode)
unfolding server_authenticate rust_vpn.Core.Auth.answer
server_admits = rw download_parses

server_authenticate-Parsed_example :
    (some auth_ok ≡ some auth_ok)
    × ((bytes : Bytes) × (server_io.read_to_end max_auth_bytes ≡ some bytes)
        × Parsed bytes (chars "abcdef") download_mode)
server_authenticate-Parsed_example =
    server_authenticate-Parsed server_io (chars "abcdef") download_mode (some auth_ok) server_admits

-- A stream that hands over what fits the limit.
abbrev pub within : ℕ → Bytes → Option Bytes
within limit bytes = if leb (length bytes) limit then some bytes else none

pub within_delivers :
    (limit : ℕ) (bytes : Bytes) → length bytes ≤ limit → within limit bytes ≡ some bytes
within_delivers limit bytes h = ground arith

exchange_lem_example : exchange within token (chars "other") vpn ≡ (err invalid_token, err rejected)
exchange_lem_example =
    exchange_lem within within_delivers token (chars "other") vpn
      (record { not_empty = λ e. cc; one_line = omega arith; is_text = ground arith })
      (unfold as_bytes in omega arith) tt

abbrev ca_file : Option (Option (List ℕ))
ca_file = some (some (7 ∷ 8 ∷ []))

abbrev any_root : ℕ → Bool
any_root cert = true

abbrev trusting : QuicConfig (List ℕ)
trusting = record {
  identity = 7 ∷ 8 ∷ [];
  alpn_protocols = alpn ∷ [];
  transport = transport_config blank_transport 65536 1300 bbr;
}

trusting_made : client_config any_root true blank_transport ca_file 65536 1300 bbr ≡ ok trusting
unfolding client_config read_certs add_roots
trusting_made = refl

client_config-Trusts_example : Trusts any_root ca_file trusting
client_config-Trusts_example =
    client_config-Trusts any_root true blank_transport ca_file 65536 1300 bbr trusting trusting_made

-- A token file of two lines.
abbrev first_line : Text
first_line = chars "0123456789abcdef"

abbrev second_line : Text
second_line = chars "fedcba9876543210"

two_lines_load :
    load_token (some (first_line ++ newline ∷ second_line))
    ≡ ok (first_line ++ newline ∷ second_line)
unfolding load_token trim as_bytes
two_lines_load = refl

broken_token_refused_example :
    (server_authenticate server_io (first_line ++ newline ∷ second_line)).1 ≢ ok download_mode
broken_token_refused_example = broken_token_refused server_io first_line second_line download_mode

parse_request_iff_example :
    (parse_request download_request ≡ ok (chars "abcdef", download_mode))
    ↔ Parsed download_request (chars "abcdef") download_mode
parse_request_iff_example = parse_request_iff download_request (chars "abcdef") download_mode
