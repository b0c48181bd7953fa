-- ===== src/Core/Auth/Parse.antt =====
-- crates/litevpn-core/src/auth.rs: which requests `parse_request` accepts.
use rust_vpn.Prelude.{refl, ◌↔◌, ◌≡◌, List, [], ◌∷◌, none, some, ok, arith, Option-cases, inl, inr}
use rust_vpn.Core.{auth_magic}
use rust_vpn.Core.Auth.{
  AuthMode, vpn, bench, parse_mode, parse_mode_line, parse_lines, parse_request,
}
use rust_vpn.Text.{Text, newline, strip_prefix, strip_suffix}
use rust_vpn.Text.Lines.{lines}
use rust_vpn.Text.Utf8.{Bytes, from_utf8}
use rust_vpn.Text.Words.{words}
use rust_vpn.Core.Auth.Mode.{
  IsAccepted, AsksFor, as_fields, parse_mode_line-AsksFor, parse_mode_line-IsAccepted,
  parse_parts-read,
}

-- What `parse_request` reads out of a request that it accepts.
pub record Parsed (request : Bytes) (token : Text) (mode : AuthMode) : Type 0 where
  pub payload : Bytes
  pub body : Text
  pub rest : List Text
  pub magic : strip_prefix auth_magic request ≡ some payload
  pub utf8 :
      (text : Text) × (from_utf8 payload ≡ some text) × (strip_suffix newline text ≡ some body)
  pub first_line : lines body ≡ token ∷ rest
  pub asks : AsksFor rest mode
  pub accepted : IsAccepted mode

parse_lines_first :
    (ls : List Text) (token : Text) (mode : AuthMode)
    → parse_lines ls ≡ ok (token, mode)
    → (rest : List Text) × (ls ≡ token ∷ rest) × AsksFor rest mode × IsAccepted mode
unfolding parse_lines as_fields
parse_lines_first [] token mode h = absurd (cc)
parse_lines_first (l ∷ []) token mode h = (
  [],
  ground arith,
  parse_mode_line-AsksFor none mode (ground arith),
  ground (arith, parse_mode_line-IsAccepted none mode),
)
parse_lines_first (l ∷ k ∷ []) token mode h = (
  k ∷ [],
  ground arith,
  parse_mode_line-AsksFor (some k) mode (ground arith),
  ground (arith, parse_mode_line-IsAccepted (some k) mode),
)
parse_lines_first (l ∷ k ∷ q ∷ r) token mode h = absurd (ground arith)

-- A request that is accepted begins with the magic, is UTF-8 with a newline at its end, and carries the
-- token as its first line; it has no other line for the tunnel, and one more line with the keyword, the
-- direction and the numbers for a bench, within the bounds.
pub parse_request-Parsed :
    (request : Bytes) (token : Text) (mode : AuthMode)
    → parse_request request ≡ ok (token, mode)
    → Parsed request token mode
unfolding parse_request
parse_request-Parsed request token mode h = elim (Option-cases (strip_prefix auth_magic request)) [
  | inl e ↦ absurd (ground arith)
  | inr (payload, magic) ↦ elim (Option-cases (from_utf8 payload)) [
    | inl e ↦ absurd (ground arith)
    | inr (text, utf8) ↦ elim (Option-cases (strip_suffix newline text)) [
      | inl e ↦ absurd (ground arith)
      | inr (body, suffix) ↦
          let (rest, first, asks, accepted) =
            parse_lines_first (lines body) token mode (ground arith) in
          record {
            payload = payload;
            body = body;
            rest = rest;
            magic = magic;
            utf8 = (text, utf8, suffix);
            first_line = first;
            asks = asks;
            accepted = accepted;
          }
    ]
  ]
]

parse_lines-read :
    (token : Text) (rest : List Text) (mode : AuthMode)
    → AsksFor rest mode
    → IsAccepted mode
    → parse_lines (token ∷ rest) ≡ ok (token, mode)
unfolding parse_lines parse_mode_line parse_mode
parse_lines-read token [] vpn a h = refl
parse_lines-read token [] (bench d n p t) a h = absurd a
parse_lines-read token (line ∷ []) vpn a h = absurd a
parse_lines-read token (line ∷ []) (bench d n p t) a h =
    rw (parse_parts-read d n p t (words line) a h) refl
parse_lines-read token (line ∷ more ∷ lines) mode a h = absurd a

parse_request-read :
    (request : Bytes) (token : Text) (mode : AuthMode)
    → Parsed request token mode
    → parse_request request ≡ ok (token, mode)
unfolding parse_request
parse_request-read request token mode p =
    let (text, utf8, body) = p.utf8 in
    rw (p.magic, utf8, body, p.first_line) (parse_lines-read token p.rest mode p.asks p.accepted)

-- The requests that the server accepts are exactly these: the magic, then UTF-8 text with a newline at
-- its end, whose first line is the token; with no other line for the tunnel, and with one more line for
-- a bench, of the keyword, the direction, the seconds, the payload and, if it is there, the target, for
-- a second or more and a payload of 64 to 1452 bytes, in numbers of 64 bits.
pub parse_request_iff :
    (request : Bytes) (token : Text) (mode : AuthMode)
    → (parse_request request ≡ ok (token, mode)) ↔ Parsed request token mode
parse_request_iff request token mode =
    (parse_request-Parsed request token mode, parse_request-read request token mode)
