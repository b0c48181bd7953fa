-- ===== src/Core/Auth/Refused.antt =====
-- crates/litevpn-core/src/auth.rs and `load_token` of crates/litevpn-core/src/config.rs: tokens that no
-- request can carry.
use rust_vpn.Prelude.{◌≢◌, refl, ap, subst, [], ◌∷◌, ◌++◌, Result, ok, All}
use rust_vpn.Core.Auth.{AuthMode, AuthError, Io, server_authenticate}
use rust_vpn.Core.Auth.Exchange.{server_authenticate-Parsed}
use rust_vpn.Text.{Text, newline}
use rust_vpn.Text.Lines.{NoNewline, lines-NoNewline}

broken : (a b : Text) → NoNewline (a ++ newline ∷ b) → ⊥
broken [] b (h, _) = h refl
broken (c ∷ a) b (_, h) = broken a b h

-- A server whose token has a line break admits nobody, whatever the client sends and asks for: the token
-- of a request is one line.
pub broken_token_refused :
    (io : Io) (a b : Text) (mode : AuthMode)
    → (server_authenticate io (a ++ newline ∷ b)).1 ≢ ok mode
broken_token_refused io a b mode h =
    let (_, (request, _, parsed)) =
      server_authenticate-Parsed io (a ++ newline ∷ b) mode
        (server_authenticate io (a ++ newline ∷ b)).0
        (ap (λ (r : Result AuthError AuthMode). ((server_authenticate io (a ++ newline ∷ b)).0, r))
          h) in
    let whole : All NoNewline ((a ++ newline ∷ b) ∷ parsed.rest) =
      subst (All NoNewline) parsed.first_line (lines-NoNewline parsed.body) in
    broken a b whole.0
