-- ===== src/Core/Auth.antt =====
-- crates/litevpn-core/src/auth.rs: the authentication request, its parser and the two ends of the
-- exchange. What quinn answers to each call of a stream is an argument.
pub mod Mode
pub mod Parse
pub mod RoundTrip
pub mod Exchange
pub mod Refused
use rust_vpn.Prelude.{
  ℕ, ◌≤◌, ◌≡◌, refl, Bool, true, false, not, ◌||◌, List, [], ◌∷◌, ◌++◌, Option, none, some, Result,
  ok, err, context, bail_if, ◌>>=◌, ◌>>◌, arith, ltb, ◌==◌, if◌then◌else◌, list_eq,
}
use rust_vpn.Core.{auth_magic, auth_ok, auth_err}
use rust_vpn.Text.{Text, chars, newline, strip_prefix, strip_suffix}
use rust_vpn.Text.Lines.{lines}
use rust_vpn.Text.Number.{display, parse_u64}
use rust_vpn.Text.Utf8.{Bytes, as_bytes, from_utf8}
use rust_vpn.Text.Words.{words}

abbrev pub max_auth_bytes : ℕ
max_auth_bytes = 1024

pub data BenchDirection : Type 0 where
  upload download stream_upload stream_download : BenchDirection
  stream_packet_upload stream_packet_download : BenchDirection

unfoldable pub as_str : BenchDirection → Text
as_str upload = chars "upload"
as_str download = chars "download"
as_str stream_upload = chars "stream-upload"
as_str stream_download = chars "stream-download"
as_str stream_packet_upload = chars "stream-packet-upload"
as_str stream_packet_download = chars "stream-packet-download"

unfoldable pub uses_datagrams : BenchDirection → Bool
uses_datagrams upload = true
uses_datagrams download = true
uses_datagrams _ = false

pub data AuthMode : Type 0 where
  vpn : AuthMode
  -- direction, duration_secs, payload_bytes, target_mbps
  bench : BenchDirection → ℕ → ℕ → Option ℕ → AuthMode

-- One constructor for each message of a `bail!` or a `context`.
pub data AuthError : Type 0 where
  open_failed send_failed finish_failed read_failed rejected : AuthError
  accept_failed invalid_token : AuthError
  bad_magic not_utf8 no_newline missing_token too_many_lines : AuthError
  unknown_mode bad_direction missing_duration bad_duration : AuthError
  missing_payload bad_payload bad_target too_many_fields : AuthError
  zero_duration payload_out_of_range : AuthError

-- The line behind the token: none for `Vpn`.
unfoldable pub mode_line : AuthMode → Text
mode_line vpn = []
mode_line (bench direction duration_secs payload_bytes target_mbps) =
    chars "bench "
    ++ (as_str direction
        ++ (b' '
            ∷ (display duration_secs
                ++ (b' '
                    ∷ (display payload_bytes
                        ++ (b' '
                            ∷ (display (elim target_mbps [ none ↦ 0 | some t ↦ t ])
                                ++ newline ∷ [])))))))

-- The request that `client_authenticate_with_mode` builds.
unfoldable pub request : Text → AuthMode → Bytes
request token mode = auth_magic ++ (as_bytes token ++ (newline ∷ as_bytes (mode_line mode)))

-- `parts.next()`
abbrev pub next : List Text → Option Text × List Text
next [] = (none, [])
next (p ∷ parts) = (some p, parts)

unfoldable pub parse_direction : Option Text → Result AuthError BenchDirection
parse_direction none = err bad_direction
parse_direction (some w) =
    if list_eq w (chars "upload")
    then ok upload
    else if list_eq w (chars "download")
    then ok download
    else if list_eq w (chars "stream-upload")
    then ok stream_upload
    else if list_eq w (chars "stream-download")
    then ok stream_download
    else if list_eq w (chars "stream-packet-upload")
    then ok stream_packet_upload
    else if list_eq w (chars "stream-packet-download")
    then ok stream_packet_download
    else err bad_direction

-- A field that has to be there and has to be a number.
unfoldable pub parse_field : Option Text → AuthError → AuthError → Result AuthError ℕ
parse_field field missing invalid = do
  value ← context field missing
  context (parse_u64 value) invalid

-- The last field may be missing, and 0 stands for no limit.
unfoldable pub parse_target : Option Text → Result AuthError (Option ℕ)
parse_target none = ok none
parse_target (some value) = do
  mbps ← context (parse_u64 value) bad_target
  ok (if mbps == 0 then none else some mbps)

is_bench : Option Text → Bool
is_bench none = false
is_bench (some w) = list_eq w (chars "bench")

abbrev pub is_some {ℓ} : {A : Type ℓ} → Option A → Bool
is_some none = false
is_some (some a) = true

unfoldable pub parse_parts : List Text → Result AuthError AuthMode
unfolding is_bench
parse_parts parts = do
  let (keyword, parts1) = next parts
  bail_if (not (is_bench keyword)) unknown_mode
  let (direction_part, parts2) = next parts1
  direction ← parse_direction direction_part
  let (duration_part, parts3) = next parts2
  duration_secs ← parse_field duration_part missing_duration bad_duration
  let (payload_part, parts4) = next parts3
  payload_bytes ← parse_field payload_part missing_payload bad_payload
  let (target_part, parts5) = next parts4
  target_mbps ← parse_target target_part
  bail_if (is_some (next parts5).0) too_many_fields
  bail_if (duration_secs == 0) zero_duration
  bail_if (ltb payload_bytes 64 || ltb 1452 payload_bytes) payload_out_of_range
  ok (bench direction duration_secs payload_bytes target_mbps)

unfoldable pub parse_mode : Text → Result AuthError AuthMode
parse_mode line = parse_parts (words line)

unfoldable pub parse_mode_line : Option Text → Result AuthError AuthMode
parse_mode_line none = ok vpn
parse_mode_line (some line) = parse_mode line

unfoldable pub parse_lines : List Text → Result AuthError (Text × AuthMode)
parse_lines lines = do
  let (first, lines1) = next lines
  token ← context first missing_token
  let (second, lines2) = next lines1
  mode ← parse_mode_line second
  bail_if (is_some (next lines2).0) too_many_lines
  ok (token, mode)

unfoldable pub parse_request : Bytes → Result AuthError (Text × AuthMode)
parse_request request = do
  payload ← context (strip_prefix auth_magic request) bad_magic
  text ← context (from_utf8 payload) not_utf8
  body ← context (strip_suffix newline text) no_newline
  parse_lines (lines body)

-- What the calls of one stream answer: `open_bi` or `accept_bi`, `write_all`, `finish`, and
-- `read_to_end` with its limit (`none` for an error, or for more bytes than the limit).
pub record Io : Type 0 where
  pub opens : Bool
  pub writes : Bool
  pub finishes : Bool
  pub read_to_end : ℕ → Option Bytes

-- The bytes that were written, if any, and the function's result.
abbrev pub Outcome : Type 0 → Type 0
Outcome A = Option Bytes × Result AuthError A

unfoldable pub client_authenticate_with_mode : Io → Text → AuthMode → Outcome (Unit {0})
client_authenticate_with_mode io token mode =
    if not io.opens
    then (none, err open_failed)
    else if not io.writes
    then (none, err send_failed)
    else (
      some (request token mode),
      do
        bail_if (not io.finishes) finish_failed
        response ← context (io.read_to_end max_auth_bytes) read_failed
        bail_if (not (list_eq response auth_ok)) rejected
        ok tt,
    )

unfoldable pub client_authenticate : Io → Text → Outcome (Unit {0})
unfolding client_authenticate_with_mode
client_authenticate io token = client_authenticate_with_mode io token vpn

-- The answer to a request that was read, for the token that the server expects.
unfoldable pub answer : Io → Text → Result AuthError (Text × AuthMode) → Outcome AuthMode
answer io expected (err e) = (none, err e)
answer io expected (ok (token, mode)) =
    let accepted = list_eq token expected in
    if not io.writes then (none, err send_failed) else (
      some (if accepted then auth_ok else auth_err),
      do bail_if (not io.finishes) finish_failed; bail_if (not accepted) invalid_token; ok mode,
    )

unfoldable pub server_authenticate : Io → Text → Outcome AuthMode
unfolding answer
server_authenticate io expected =
    if not io.opens
    then (none, err accept_failed)
    else answer io expected
        (do request ← context (io.read_to_end max_auth_bytes) read_failed; parse_request request)
