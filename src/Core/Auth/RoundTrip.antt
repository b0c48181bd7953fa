-- ===== src/Core/Auth/RoundTrip.antt =====
-- crates/litevpn-core/src/auth.rs: a request that the client writes is read by the server.
use rust_vpn.Prelude.{
  ℕ, ◌≤◌, ◌<◌, ◌≡◌, refl, ◌≢◌, List, [], ◌∷◌, ◌++◌, Option, none, some, ok, arith, All, All-append,
  append_assoc, ap, ◌∙◌, sym, ◌≡⟨◌⟩◌, ◌∎,
}
use rust_vpn.Core.{auth_magic}
use rust_vpn.Core.Auth.{
  BenchDirection, upload, download, stream_upload, stream_download, stream_packet_upload,
  stream_packet_download, as_str, AuthMode, vpn, bench, mode_line, request, parse_parts,
  parse_field, parse_direction, parse_target, parse_mode, parse_mode_line, parse_lines,
  parse_request,
}
use rust_vpn.Core.Auth.Mode.{IsAccepted}
use rust_vpn.Text.{
  Text, chars, newline, strip_prefix-append, strip_suffix-append, IsDigit, Solid, is_whitespace,
}
use rust_vpn.Text.Lines.{lines, OneLine, lines-single, lines-break}
use rust_vpn.Text.Number.{display, display-digits, display-ne-nil, parse_u64-display}
use rust_vpn.Text.Utf8.{Bytes, IsChar, IsAscii, as_bytes, from_utf8-as_bytes, as_bytes-append}
use rust_vpn.Text.Words.{unwords, words-unwords, IsWord}

-- Characters of the words in a mode line: visible ASCII.
abbrev pub IsVisible : ℕ → Type 0
IsVisible c = (b' ' < c) × (c < 0x7f)

pub visible-Solid : (s : Text) → All IsVisible s → Solid s
unfolding is_whitespace
visible-Solid [] h = tt
visible-Solid (c ∷ s) h = ground (arith, visible-Solid s h.1)

digits-IsVisible : (s : Text) → All IsDigit s → All IsVisible s
digits-IsVisible [] h = tt
digits-IsVisible (c ∷ s) h = ground (arith, digits-IsVisible s h.1)

pub display-IsVisible : (n : ℕ) → All IsVisible (display n)
display-IsVisible n = digits-IsVisible (display n) (display-digits n)

pub as_str-IsVisible : (d : BenchDirection) → (as_str d ≢ []) × All IsVisible (as_str d)
unfolding as_str
as_str-IsVisible upload = (λ e. cc, omega arith)
as_str-IsVisible download = (λ e. cc, omega arith)
as_str-IsVisible stream_upload = (λ e. cc, omega arith)
as_str-IsVisible stream_download = (λ e. cc, omega arith)
as_str-IsVisible stream_packet_upload = (λ e. cc, omega arith)
as_str-IsVisible stream_packet_download = (λ e. cc, omega arith)

abbrev target_field : Option ℕ → ℕ
target_field none = 0
target_field (some t) = t

-- The words of a mode line.
abbrev fields : BenchDirection → ℕ → ℕ → Option ℕ → List Text
fields d n p t = chars "bench" ∷ as_str d ∷ display n ∷ display p ∷ display (target_field t) ∷ []

fields_words : (d : BenchDirection) (n p : ℕ) (t : Option ℕ) → All IsWord (fields d n p t)
fields_words d n p t = (
  ((λ e. cc), visible-Solid (chars "bench") (omega arith)),
  (
    ((as_str-IsVisible d).0, visible-Solid (as_str d) (as_str-IsVisible d).1),
    (number n, (number p, (number (target_field t), tt))),
  ),
)
  where
    number : (k : ℕ) → IsWord (display k)
    number k = (display-ne-nil k, visible-Solid (display k) (display-IsVisible k))

mode_line-unwords :
    (d : BenchDirection) (n p : ℕ) (t : Option ℕ)
    → mode_line (bench d n p t) ≡ unwords (fields d n p t) ++ newline ∷ []
unfolding mode_line
mode_line-unwords d n p t = simp append_assoc

parse_direction-as_str : (d : BenchDirection) → parse_direction (some (as_str d)) ≡ ok d
unfolding parse_direction as_str
parse_direction-as_str upload = refl
parse_direction-as_str download = refl
parse_direction-as_str stream_upload = refl
parse_direction-as_str stream_download = refl
parse_direction-as_str stream_packet_upload = refl
parse_direction-as_str stream_packet_download = refl

parse_parts-fields :
    (d : BenchDirection) (n p : ℕ) (t : Option ℕ)
    → IsAccepted (bench d n p t)
    → parse_parts (fields d n p t) ≡ ok (bench d n p t)
unfolding parse_parts parse_field parse_target
parse_parts-fields d n p none h =
    ground (
      arith,
      parse_direction-as_str d,
      parse_u64-display n,
      parse_u64-display p,
      parse_u64-display 0,
    )
parse_parts-fields d n p (some t) h =
    ground (
      arith,
      parse_direction-as_str d,
      parse_u64-display n,
      parse_u64-display p,
      parse_u64-display t,
    )

-- Visible ASCII and the space.
abbrev IsPlain : ℕ → Type 0
IsPlain c = (32 ≤ c) × (c < 0x7f)

IsPlain-of_visible : (s : Text) → All IsVisible s → All IsPlain s
IsPlain-of_visible [] h = tt
IsPlain-of_visible (c ∷ s) h = ((omega arith, omega arith), IsPlain-of_visible s h.1)

unwords-IsPlain : (ws : List Text) → All (All IsPlain) ws → All IsPlain (unwords ws)
unwords-IsPlain [] h = tt
unwords-IsPlain (w ∷ []) h = h.0
unwords-IsPlain (w ∷ v ∷ ws) h =
    All-append IsPlain w (b' ' ∷ unwords (v ∷ ws)) h.0 (omega arith, unwords-IsPlain (v ∷ ws) h.1)

fields-IsPlain :
    (d : BenchDirection) (n p : ℕ) (t : Option ℕ) → All IsPlain (unwords (fields d n p t))
fields-IsPlain d n p t = unwords-IsPlain (fields d n p t) (
  omega arith,
  (IsPlain-of_visible _ (as_str-IsVisible d).1, (number n, (number p, (number _, tt)))),
)
  where
    number : (k : ℕ) → All IsPlain (display k)
    number k = IsPlain-of_visible (display k) (display-IsVisible k)

plain-OneLine : (s : Text) → All IsPlain s → OneLine s × All IsChar s
plain-OneLine [] h = (tt, tt)
plain-OneLine (c ∷ s) h = ground (arith, plain-OneLine s h.1)

parse_mode-fields :
    (d : BenchDirection) (n p : ℕ) (t : Option ℕ)
    → IsAccepted (bench d n p t)
    → parse_mode (unwords (fields d n p t)) ≡ ok (bench d n p t)
unfolding parse_mode
parse_mode-fields d n p t h =
    rw (words-unwords (fields d n p t) (fields_words d n p t)) (parse_parts-fields d n p t h)

-- A token that a client may send: not empty, one line, and text.
pub record IsToken (token : Text) : Type 0 where
  pub not_empty : token ≢ []
  pub one_line : OneLine token
  pub is_text : All IsChar token

as_bytes-newline : (s : Text) → as_bytes (newline ∷ s) ≡ newline ∷ as_bytes s
unfolding as_bytes
as_bytes-newline s = refl

-- The text behind the magic, up to the last newline.
abbrev body : Text → AuthMode → Text
body token vpn = token
body token (bench d n p t) = token ++ newline ∷ unwords (fields d n p t)

body-text :
    (token : Text) (mode : AuthMode)
    → token ++ newline ∷ mode_line mode ≡ body token mode ++ newline ∷ []
body-text token vpn = unfold mode_line in refl
body-text token (bench d n p t) = rw (mode_line-unwords d n p t) (simp append_assoc)

body_chars :
    (token : Text) (mode : AuthMode)
    → All IsChar token
    → All IsChar (body token mode ++ newline ∷ [])
body_chars token vpn h = All-append IsChar token _ h (omega arith)
body_chars token (bench d n p t) h =
    All-append IsChar (body token (bench d n p t)) _
      (All-append IsChar token _ h
        (omega arith, (plain-OneLine (unwords (fields d n p t)) (fields-IsPlain d n p t)).1))
      (omega arith)

split_lines :
    (d : BenchDirection) (n p : ℕ) (t : Option ℕ) (token : Text)
    → OneLine token
    → lines (body token (bench d n p t)) ≡ token ∷ unwords (fields d n p t) ∷ []
split_lines d n p t token h =
    lines-break token (unwords (fields d n p t)) h
    ∙ ap (λ (r : List Text). token ∷ r)
        (lines-single (unwords (fields d n p t)) (λ e. cc)
          (plain-OneLine (unwords (fields d n p t)) (fields-IsPlain d n p t)).0)

parse_lines-body :
    (token : Text) (mode : AuthMode)
    → IsToken token
    → IsAccepted mode
    → parse_lines (lines (body token mode)) ≡ ok (token, mode)
unfolding parse_lines
parse_lines-body token vpn k h =
    rw (lines-single token k.not_empty k.one_line) (unfold parse_mode_line in refl)
parse_lines-body token (bench d n p t) k h =
    rw (split_lines d n p t token k.one_line)
      (unfold parse_mode_line in rw (parse_mode-fields d n p t h))

-- The bytes behind the magic.
payload-bytes :
    (token : Text) (mode : AuthMode)
    → as_bytes token ++ newline ∷ as_bytes (mode_line mode)
      ≡ as_bytes (body token mode ++ newline ∷ [])
payload-bytes token mode =
    as_bytes token ++ newline ∷ as_bytes (mode_line mode)
    ≡⟨ ap (λ (r : Bytes). as_bytes token ++ r) (sym (as_bytes-newline (mode_line mode))) ⟩
      as_bytes token ++ as_bytes (newline ∷ mode_line mode)
    ≡⟨ sym (as_bytes-append token (newline ∷ mode_line mode)) ⟩
      as_bytes (token ++ newline ∷ mode_line mode)
    ≡⟨ ap as_bytes (body-text token mode) ⟩ as_bytes (body token mode ++ newline ∷ []) ∎

-- The server reads back the token and the mode of every request that the client writes, for a token
-- that is one line of text and a mode within the server's bounds.
pub parse_request-request :
    (token : Text) (mode : AuthMode)
    → IsToken token
    → IsAccepted mode
    → parse_request (request token mode) ≡ ok (token, mode)
unfolding parse_request request
parse_request-request token mode k h =
    rw
      (
        strip_prefix-append auth_magic (as_bytes token ++ newline ∷ as_bytes (mode_line mode)),
        payload-bytes token mode,
        from_utf8-as_bytes (body token mode ++ newline ∷ []) (body_chars token mode k.is_text),
        strip_suffix-append newline (body token mode),
      )
      (parse_lines-body token mode k h)

pub mode_line-IsAscii : (mode : AuthMode) → All IsAscii (mode_line mode)
mode_line-IsAscii vpn = unfold mode_line in tt
mode_line-IsAscii (bench d n p t) = rw (mode_line-unwords d n p t) (
    All-append IsAscii (unwords (fields d n p t)) (newline ∷ [])
      (plain_ascii (unwords (fields d n p t)) (fields-IsPlain d n p t)) (omega arith))
  where
    plain_ascii : (s : Text) → All IsPlain s → All IsAscii s
    plain_ascii [] h = tt
    plain_ascii (c ∷ s) h = (omega arith, plain_ascii s h.1)
