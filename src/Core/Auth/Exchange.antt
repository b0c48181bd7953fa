-- ===== src/Core/Auth/Exchange.antt =====
-- crates/litevpn-core/src/auth.rs: both ends of an exchange together. `deliver limit bytes` is what
-- quinn's `read_to_end(limit)` answers on a stream that its peer finished behind `bytes`.
use rust_vpn.Prelude.{
  ℕ, ◌≤◌, ◌≡◌, true, [], ◌∷◌, ◌++◌, Option, none, some, Result, ok, err, arith, length,
  length-append, list_eq, list_eq_iff, Option-cases, inl, inr, if◌then◌else◌, Bool-cases,
}
use rust_vpn.Core.{auth_ok, auth_err}
use rust_vpn.Core.Auth.{
  BenchDirection, AuthMode, vpn, bench, mode_line, request, as_str, max_auth_bytes, Io, AuthError,
  client_authenticate_with_mode, server_authenticate, answer, invalid_token, rejected,
}
use rust_vpn.Core.Auth.Mode.{IsAccepted}
use rust_vpn.Core.Auth.Parse.{Parsed, parse_request-Parsed}
use rust_vpn.Core.Auth.RoundTrip.{IsToken, parse_request-request, mode_line-IsAscii}
use rust_vpn.Text.{Text, newline}
use rust_vpn.Text.Number.{display, length-display}
use rust_vpn.Text.Utf8.{Bytes, as_bytes, as_bytes-ascii}

answer-ok :
    (io : Io) (expected : Text) (r : Result AuthError (Text × AuthMode)) (mode : AuthMode)
    (sent : Option Bytes)
    → answer io expected r ≡ (sent, ok mode)
    → (sent ≡ some auth_ok) × (r ≡ ok (expected, mode))
unfolding answer
answer-ok io expected (err e) mode sent h = ground arith
answer-ok io expected (ok (token, m)) mode sent h = ground (arith, list_eq_iff token expected)

-- The server admits a client only if its stream carried, within the limit, a request with the magic, as
-- UTF-8 with a newline at its end, whose first line is the expected token; with no other line for the
-- tunnel, and for a bench one more line with the keyword, the direction and the numbers, within the
-- bounds. It has then answered OK.
pub server_authenticate-Parsed :
    (io : Io) (expected : Text) (mode : AuthMode) (sent : Option Bytes)
    → server_authenticate io expected ≡ (sent, ok mode)
    → (sent ≡ some auth_ok)
      × ((bytes : Bytes) × (io.read_to_end max_auth_bytes ≡ some bytes)
          × Parsed bytes expected mode)
unfolding server_authenticate
server_authenticate-Parsed io expected mode sent h = elim (Bool-cases io.opens) [
  | inl opened ↦
      let (ok_sent, parsed) = answer-ok io expected _ mode sent (rw opened at h) in
      elim (Option-cases (io.read_to_end max_auth_bytes)) [
        | inl e ↦ absurd (ground arith)
        | inr (bytes, e) ↦
            (ok_sent, (bytes, e, parse_request-Parsed bytes expected mode (ground arith)))
      ]
  | inr closed ↦ absurd (ground arith)
]

-- One exchange in which no call fails: the server's outcome, then the client's.
unfoldable pub exchange :
    (ℕ → Bytes → Option Bytes)
    → Text
    → Text
    → AuthMode
    → Result AuthError AuthMode × Result AuthError (Unit {0})
unfolding server_authenticate client_authenticate_with_mode
exchange deliver token expected mode =
    let server_io : Io = record {
      opens = true;
      writes = true;
      finishes = true;
      read_to_end = λ limit. deliver limit (request token mode);
    } in
    let (response, server) = server_authenticate server_io expected in
    let client_io : Io = record {
      opens = true;
      writes = true;
      finishes = true;
      read_to_end = λ limit. elim response [ none ↦ none | some r ↦ deliver limit r ];
    } in
    (server, (client_authenticate_with_mode client_io token mode).1)

length-as_str : (d : BenchDirection) → length (as_str d) ≤ 22
unfolding as_str
length-as_str d = ground arith

length-mode_line : (mode : AuthMode) → IsAccepted mode → length (mode_line mode) ≤ 100
unfolding mode_line
length-mode_line vpn h = omega arith
length-mode_line (bench d n p none) h = ground (
  arith,
  length-append (as_str d)
      (b' ' ∷ (display n ++ (b' ' ∷ (display p ++ (b' ' ∷ (display 0 ++ newline ∷ [])))))),
  length-append (display n) (b' ' ∷ (display p ++ (b' ' ∷ (display 0 ++ newline ∷ [])))),
  length-append (display p) (b' ' ∷ (display 0 ++ newline ∷ [])),
  length-append (display 0) (newline ∷ []),
  length-as_str d,
  length-display n,
  length-display p,
  length-display 0,
)
length-mode_line (bench d n p (some t)) h = ground (
  arith,
  length-append (as_str d)
      (b' ' ∷ (display n ++ (b' ' ∷ (display p ++ (b' ' ∷ (display t ++ newline ∷ [])))))),
  length-append (display n) (b' ' ∷ (display p ++ (b' ' ∷ (display t ++ newline ∷ [])))),
  length-append (display p) (b' ' ∷ (display t ++ newline ∷ [])),
  length-append (display t) (newline ∷ []),
  length-as_str d,
  length-display n,
  length-display p,
  length-display t,
)

length-request :
    (token : Text) (mode : AuthMode)
    → length (as_bytes token) ≤ 900
    → IsAccepted mode
    → length (request token mode) ≤ max_auth_bytes
unfolding request
length-request token mode fits h = rw (as_bytes-ascii (mode_line mode) (mode_line-IsAscii mode)) (
    omega
      (arith, length-append (as_bytes token) (newline ∷ mode_line mode), length-mode_line mode h))

-- Both ends agree: with the right token the server enters the mode that the client asked for and the
-- client goes on; with another token the server refuses and the client learns that it was rejected.
-- The token is one line of text of 900 bytes at most, the mode is within the server's bounds, no call
-- fails, and what fits the reader's limit is delivered.
pub exchange_lem :
    (deliver : ℕ → Bytes → Option Bytes)
    → ((limit : ℕ) (bytes : Bytes) → length bytes ≤ limit → deliver limit bytes ≡ some bytes)
    → (token expected : Text) (mode : AuthMode) → IsToken token
    → length (as_bytes token) ≤ 900
    → IsAccepted mode
    → exchange deliver token expected mode
      ≡ (if list_eq token expected then (ok mode, ok tt) else (err invalid_token, err rejected))
unfolding exchange
exchange_lem deliver delivers token expected mode k fits h = ground (
  arith,
  delivers max_auth_bytes (request token mode) (length-request token mode fits h),
  delivers max_auth_bytes auth_ok (omega arith),
  delivers max_auth_bytes auth_err (omega arith),
  parse_request-request token mode k h,
)
