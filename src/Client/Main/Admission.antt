-- ===== src/Client/Main/Admission.antt =====
-- crates/litevpn-client/src/main.rs and crates/litevpn-core/src/auth.rs: `main` of the client against the
-- authentication of the server.
use rust_vpn.Prelude.{
  ℕ, ◌≤◌, ◌≡◌, refl, sym, ap, ◌∙◌, subst, Bool, true, false, if◌then◌else◌, Option, some, Result,
  ok, err, List, [], ◌∷◌, length, list_eq, list_eq_iff, arith,
}
use rust_vpn.Client.{Args}
use rust_vpn.Client.Main.{main}
use rust_vpn.Client.Main.Ordered.{main-Script}
use rust_vpn.Client.Main.Script.{
  Script, not_asked, asked_only, benched, probed, probed_holding, tun_only, served,
}
use rust_vpn.Client.Session.{Action, serves, Session, World}
use rust_vpn.Core.Auth.{AuthMode, vpn, invalid_token, rejected}
use rust_vpn.Core.Auth.Exchange.{exchange, exchange_lem}
use rust_vpn.Core.Auth.RoundTrip.{IsToken}
use rust_vpn.Core.Token.{load_token}
use rust_vpn.Text.{Text}
use rust_vpn.Text.Utf8.{Bytes, as_bytes}

-- Whether the pumps have run.
unfoldable pub has_served : List Action → Bool
has_served [] = false
has_served (serves transport ∷ log) = true
has_served (action ∷ log) = has_served log

abbrev pub is_ok : {E A : Type 0} → Result E A → Bool
is_ok (ok a) = true
is_ok (err e) = false

-- The token is one line, and not too long for a request.
abbrev pub IsSendable : Text → Type 0
IsSendable token = IsToken token × (length (as_bytes token) ≤ 900)

module _ (deliver : ℕ → Bytes → Option Bytes)
    (delivers : (limit : ℕ) (bytes : Bytes)
      → length bytes ≤ limit
      → deliver limit bytes ≡ some bytes)
    (expected : Text) where
  -- The client goes on only with the server's token.
  accepted_token :
      (token : Text)
      → IsSendable token
      → is_ok (exchange deliver token expected vpn).1 ≡ true
      → (token ≡ expected) × ((exchange deliver token expected vpn).0 ≡ ok vpn)
  accepted_token token (k, fits) h =
      let e = exchange_lem deliver delivers token expected vpn k fits tt in
      cases (list_eq token expected) refl e
    where
      cases :
          (same : Bool)
          → list_eq token expected ≡ same
          → exchange deliver token expected vpn
            ≡ (if same then (ok vpn, ok tt) else (err invalid_token, err rejected))
          → (token ≡ expected) × ((exchange deliver token expected vpn).0 ≡ ok vpn)
      cases true same e = ((list_eq_iff token expected).0 same, ap (λ r. r.0) e)
      cases false same e = absurd (ground (arith, e, h))

  module _ {E C M T : Type 0} (w : World E C M T) (args : Args) where
    served_token :
        (log : List Action)
        → Script w args log
        → ((connection : C) (token : Text) (mode : AuthMode)
            → w.authenticates connection token mode
              ≡ is_ok (exchange deliver token expected mode).1)
        → ((token : Text) → load_token w.token_file ≡ ok token → IsSendable token)
        → has_served log ≡ true
        → (load_token w.token_file ≡ ok expected)
          × ((exchange deliver expected expected vpn).0 ≡ ok vpn)
    unfolding has_served
    served_token log not_asked answers sendable h = absurd (cc)
    served_token log (asked_only a) answers sendable h = absurd (cc)
    served_token log (benched a t d) answers sendable h = absurd (cc)
    served_token log (probed a p) answers sendable h = absurd (cc)
    served_token log (probed_holding a p) answers sendable h = absurd (cc)
    served_token log (tun_only a c) answers sendable h = absurd (cc)
    served_token log (served {config} {p} {token} {connection} a c t) answers sendable h =
        let loaded = a.is_asked.loaded in
        let (same, entered) =
          accepted_token token (sendable token loaded)
            (sym (answers connection token vpn) ∙ a.admitted) in
        (
          loaded ∙ ap ok same,
          subst (λ t. (exchange deliver t expected vpn).0 ≡ ok vpn) same entered,
        )

    -- The client runs its pumps only where its token file holds the token of the server, and the server
    -- has then let it into the tunnel: with an exchange in which no call fails, and where the token
    -- that the client's file holds, if any, is one line of 900 bytes at most.
    pub tunnel_needs_token :
        ((connection : C) (token : Text) (mode : AuthMode)
          → w.authenticates connection token mode ≡ is_ok (exchange deliver token expected mode).1)
        → ((token : Text) → load_token w.token_file ≡ ok token → IsSendable token)
        → (s : Session T) → s.log ≡ []
        → has_served (main w args s).1.log ≡ true
        → (load_token w.token_file ≡ ok expected)
          × ((exchange deliver expected expected vpn).0 ≡ ok vpn)
    tunnel_needs_token answers sendable s fresh h =
        served_token _ (main-Script w args s fresh) answers sendable h
