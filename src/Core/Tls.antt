-- ===== src/Core/Tls.antt =====
-- crates/litevpn-core/src/crypto.rs: the configurations of both ends. The files, their PEM parser and
-- rustls are arguments: what they answer to the calls of `client_config` and `server_config`.
use rust_vpn.Prelude.{
  ℕ, ◌≡◌, ◌≢◌, refl, Bool, true, false, Option, none, some, Result, ok, err, context, ◌>>=◌, ◌>>◌,
  List, [], ◌∷◌, ◌++◌, append_assoc, append-nil, All, if◌then◌else◌, ap, subst, ◌∙◌, sym, bail_if,
  not,
}
use rust_vpn.Core.{alpn}
use rust_vpn.Core.Config.{CongestionController}
use rust_vpn.Core.Transport.{TransportConfig, transport_config}
use rust_vpn.Text.Utf8.{Bytes}

-- One constructor for each `?` and `bail!`.
pub data TlsError : Type 0 where
  open_failed parse_failed no_certificates no_private_key : TlsError
  root_refused certificate_refused quic_refused : TlsError

-- A file that was opened or not, and what the parser makes of it: an error, or a value.
abbrev pub Parsed : Type 0 → Type 0
Parsed A = Option (Option A)

-- The result with a root store or a certificate, a list of protocols, and the transport settings.
pub record QuicConfig (I : Type 0) : Type 0 where
  pub identity : I
  pub alpn_protocols : List Bytes
  pub transport : TransportConfig

unfoldable pub read_private_key : {Key : Type 0} → Parsed (Option Key) → Result TlsError Key
read_private_key file = do
  opened ← context file open_failed
  key ← context opened parse_failed
  context key no_private_key

module _ {Cert : Type 0} where
  abbrev some_certs : List Cert → Result TlsError (List Cert)
  some_certs [] = err no_certificates
  some_certs (c ∷ certs) = ok (c ∷ certs)

  unfoldable pub read_certs : Parsed (List Cert) → Result TlsError (List Cert)
  read_certs file = do
    opened ← context file open_failed
    certs ← context opened parse_failed
    some_certs certs

  -- `roots.add(cert)?` for each certificate, from the roots that the store has.
  unfoldable pub add_roots : (Cert → Bool) → List Cert → List Cert → Result TlsError (List Cert)
  add_roots accepts roots [] = ok roots
  add_roots accepts roots (cert ∷ certs) =
      let rest = add_roots accepts (roots ++ cert ∷ []) certs in
      if accepts cert then rest else err root_refused

  -- `initial` is `TransportConfig::default()`, `quic` what `QuicClientConfig::try_from` answers.
  unfoldable pub client_config :
      (Cert → Bool)
      → Bool
      → TransportConfig
      → Parsed (List Cert)
      → ℕ
      → ℕ
      → CongestionController
      → Result TlsError (QuicConfig (List Cert))
  unfolding read_certs add_roots
  client_config accepts quic initial ca_cert datagram_buffer_bytes tun_mtu congestion_controller =
      do
        certs ← read_certs ca_cert
        roots ← add_roots accepts [] certs
        bail_if (not quic) quic_refused
        ok (record {
          identity = roots;
          alpn_protocols = alpn ∷ [];
          transport = transport_config initial datagram_buffer_bytes tun_mtu congestion_controller;
        })

  -- `matches` is whether `with_single_cert` takes the certificates with the key.
  unfoldable pub server_config :
      {Key : Type 0}
      → (List Cert → Key → Bool)
      → Bool
      → TransportConfig
      → Parsed (List Cert)
      → Parsed (Option Key)
      → ℕ
      → ℕ
      → CongestionController
      → Result TlsError (QuicConfig (List Cert × Key))
  unfolding read_certs read_private_key
  server_config matches quic initial cert_file key_file datagram_buffer_bytes tun_mtu
        congestion_controller =
      do
        certs ← read_certs cert_file
        key ← read_private_key key_file
        bail_if (not (matches certs key)) certificate_refused
        bail_if (not quic) quic_refused
        ok (record {
          identity = (certs, key);
          alpn_protocols = alpn ∷ [];
          transport = transport_config initial datagram_buffer_bytes tun_mtu congestion_controller;
        })

  add_roots-ok :
      (accepts : Cert → Bool) (roots certs all : List Cert)
      → add_roots accepts roots certs ≡ ok all
      → (all ≡ roots ++ certs) × All (λ c. accepts c ≡ true) certs
  unfolding add_roots
  add_roots-ok accepts roots [] all h =
      let same : roots ≡ all = cc in (sym same ∙ sym (append-nil roots), tt)
  add_roots-ok accepts roots (cert ∷ certs) all h =
      cases (accepts cert) refl (add_roots-ok accepts (roots ++ cert ∷ []) certs all) h
    where
      cases :
          (b : Bool)
          → accepts cert ≡ b
          → (add_roots accepts (roots ++ cert ∷ []) certs ≡ ok all
              → (all ≡ (roots ++ cert ∷ []) ++ certs) × All (λ c. accepts c ≡ true) certs)
          → (if b then add_roots accepts (roots ++ cert ∷ []) certs else err root_refused) ≡ ok all
          → (all ≡ roots ++ cert ∷ certs) × All (λ c. accepts c ≡ true) (cert ∷ certs)
      cases true e later h =
          let (same, rest) = later h in (same ∙ append_assoc roots (cert ∷ []) certs, (e, rest))
      cases false e later h = cc

  -- What the client trusts, and speaks.
  pub record Trusts (accepts : Cert → Bool) (file : Parsed (List Cert)) (c : QuicConfig (List Cert))
      : Type 0 where
    pub read : file ≡ some (some c.identity)
    pub not_empty : c.identity ≢ []
    pub accepted : All (λ cert. accepts cert ≡ true) c.identity
    pub speaks : c.alpn_protocols ≡ alpn ∷ []

  read_certs-ok :
      (file : Parsed (List Cert)) (certs : List Cert)
      → read_certs file ≡ ok certs
      → (file ≡ some (some certs)) × (certs ≢ [])
  unfolding read_certs
  read_certs-ok none certs h = cc
  read_certs-ok (some none) certs h = cc
  read_certs-ok (some (some [])) certs h = cc
  read_certs-ok (some (some (c ∷ cs))) certs h =
      let same : c ∷ cs ≡ certs = cc in (ap (λ (x : List Cert). some (some x)) same, λ e. cc)

  with_roots-Trusts :
      (accepts : Cert → Bool) (file : Parsed (List Cert)) (quic : Bool)
      (transport : TransportConfig) (certs : List Cert) (roots : Result TlsError (List Cert))
      (c : QuicConfig (List Cert))
      → (file ≡ some (some certs)) × (certs ≢ [])
      → add_roots accepts [] certs ≡ roots
      → (do
        all ← roots
        bail_if (not quic) quic_refused
        ok (record { identity = all; alpn_protocols = alpn ∷ []; transport = transport }))
        ≡ ok c
      → Trusts accepts file c
  with_roots-Trusts accepts file quic transport certs (err e) c f r h = cc
  with_roots-Trusts accepts file false transport certs (ok all) c f r h = cc
  with_roots-Trusts accepts file true transport certs (ok all) c (read, filled) r h =
      let (same, accepted) = add_roots-ok accepts [] certs all r in
      let made : record { identity = all; alpn_protocols = alpn ∷ []; transport = transport } ≡ c =
        cc in
      subst (Trusts accepts file) made (record {
        read = read ∙ ap (λ (x : List Cert). some (some x)) (sym same);
        not_empty = subst (λ (x : List Cert). x ≢ []) (sym same) filled;
        accepted = subst (All (λ x. accepts x ≡ true)) (sym same) accepted;
        speaks = refl;
      })

  read_then-Trusts :
      (accepts : Cert → Bool) (file : Parsed (List Cert)) (quic : Bool)
      (transport : TransportConfig) (certs : Result TlsError (List Cert))
      (c : QuicConfig (List Cert))
      → read_certs file ≡ certs
      → (do
        opened ← certs
        all ← add_roots accepts [] opened
        bail_if (not quic) quic_refused
        ok (record { identity = all; alpn_protocols = alpn ∷ []; transport = transport }))
        ≡ ok c
      → Trusts accepts file c
  read_then-Trusts accepts file quic transport (err e) c r h = cc
  read_then-Trusts accepts file quic transport (ok certs) c r h =
      with_roots-Trusts accepts file quic transport certs _ c (read_certs-ok file certs r) refl h

  -- A client configuration trusts exactly the certificates of its file, in order: at least one, each of
  -- them accepted as a root. It speaks the one protocol of the program.
  pub client_config-Trusts :
      (accepts : Cert → Bool) (quic : Bool) (initial : TransportConfig) (file : Parsed (List Cert))
      (datagram_buffer_bytes tun_mtu : ℕ) (controller : CongestionController)
      (c : QuicConfig (List Cert))
      → client_config accepts quic initial file datagram_buffer_bytes tun_mtu controller ≡ ok c
      → Trusts accepts file c
  unfolding client_config
  client_config-Trusts accepts quic initial file buffer mtu controller c h =
      read_then-Trusts accepts file quic _ (read_certs file) c refl h
