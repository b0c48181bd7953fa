-- ===== src/Keygen.antt =====
-- crates/litevpn-keygen/src/main.rs. The certificate, the random bytes and `hex::encode` come from
-- other packages and are parameters; the file system says of each call whether it succeeds.
use rust_vpn.Prelude.{
  ℕ, ◌*◌, ◌≤◌, ◌≡◌, ◌⊎◌, Bool, true, false, List, [], ◌∷◌, ◌++◌, some, ok, err, arith, ltb, ◌==◌,
  if◌then◌else◌, All, length,
}
use rust_vpn.Core.Config.{token_too_short}
use rust_vpn.Core.Token.{load_token, load_token-line}
use rust_vpn.Text.{Text, chars, newline, Solid, is_whitespace}
use rust_vpn.Text.Utf8.{Bytes, IsAscii}

pub record Args : Type 0 where
  pub out_dir : Text
  pub server_name : Text
  pub token_bytes : ℕ

-- The calls of `std::fs`, in the order in which `main` makes them.
pub data Call : Type 0 where
  create_dir_all : Text → Call
  write : Text → Text → Call
  set_permissions : Text → ℕ → Call

-- `Path::join` for a relative name.
join : Text → Text → Text
join [] name = name
join (c ∷ []) name = if c == b'/' then c ∷ name else c ∷ b'/' ∷ name
join (c ∷ d ∷ dir) name = c ∷ join (d ∷ dir) name

-- The calls up to the first that fails, and whether none did: `?` leaves `main`.
pub perform : (Call → Bool) → List Call → List Call × Bool
perform succeeds [] = ([], true)
perform succeeds (c ∷ cs) =
    let (done, all) = perform succeeds cs in if succeeds c then (c ∷ done, all) else (c ∷ [], false)

-- Every character that `hex::encode` prints.
abbrev pub IsHexDigit : ℕ → Type 0
IsHexDigit c = ((b'0' ≤ c) × (c ≤ b'9')) ⊎ ((b'a' ≤ c) × (c ≤ b'f'))

module _ (hex_encode : Bytes → Text) where
  -- What `main` writes to `client.token`.
  unfoldable pub token_file : Bytes → Text
  token_file token = hex_encode token ++ newline ∷ []

  unfoldable pub calls : Args → Text → Text → Bytes → List Call
  unfolding join token_file
  calls args cert_pem key_pem token =
      create_dir_all args.out_dir
      ∷ write (join args.out_dir (chars "server.crt")) cert_pem
      ∷ write (join args.out_dir (chars "server.key")) key_pem
      ∷ write (join args.out_dir (chars "client.token")) (token_file token)
      ∷ set_permissions (join args.out_dir (chars "server.key")) 0o600
      ∷ set_permissions (join args.out_dir (chars "client.token")) 0o600
      ∷ []

  pub main : (Call → Bool) → Args → Text → Text → Bytes → List Call × Bool
  unfolding calls perform
  main succeeds args cert_pem key_pem token = perform succeeds (calls args cert_pem key_pem token)

  module _ (two_digits : (b : Bytes) → length (hex_encode b) ≡ 2 * length b)
      (hex_digits : (b : Bytes) → All IsHexDigit (hex_encode b)) where
    hex-Solid : (s : Text) → All IsHexDigit s → Solid s × All IsAscii s
    unfolding is_whitespace
    hex-Solid [] h = (tt, tt)
    hex-Solid (c ∷ s) h = ground (arith, hex-Solid s h.1)

    -- The token file that the key generator writes is loaded as the hexadecimal token by client and
    -- server when the token has 16 random bytes or more, and refused as too short when it has fewer.
    pub load_token-token_file :
        (token : Bytes)
        → load_token (some (token_file token))
          ≡ (if ltb (length token) 16 then err token_too_short else ok (hex_encode token))
    unfolding token_file
    load_token-token_file token =
        let (solid, ascii) = hex-Solid (hex_encode token) (hex_digits token) in
        ground (arith, two_digits token, load_token-line (hex_encode token) solid ascii)
