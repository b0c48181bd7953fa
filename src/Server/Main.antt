-- ===== src/Server/Main.antt =====
-- crates/litevpn-server/src/main.rs: `main` up to its loop. What the calls of other packages answer is
-- the record `World`.
use rust_vpn.Prelude.{Bool, not, Option, some, Result, ok, err, ◌>>=◌, ◌>>◌, bail_if, context, List}
use rust_vpn.Core.Config.{ConfigError, load_toml}
use rust_vpn.Core.Config.Server.{ServerConfig, validate}
use rust_vpn.Core.Quic.Socket.{SocketError, SocketCall, create_udp_socket}
use rust_vpn.Core.Token.{load_token}
use rust_vpn.Core.Tls.{TlsError, QuicConfig}
use rust_vpn.Core.Tun.{TunOptions}
use rust_vpn.Server.{Server, start}
use rust_vpn.Text.{Text}

pub data StartError : Type 0 where
  tun_failed bad_listen no_runtime no_endpoint : StartError
  config_refused : ConfigError → StartError
  tls_failed : TlsError → StartError
  socket_failed : SocketError → StartError

pub record World (I : Type 0) : Type 0 where
  -- the file of `args.config`, and `toml::from_str`
  pub config_file : Option Text
  pub from_str : Text → Option ServerConfig
  pub token_file : Option Text
  pub tun_created : Bool
  -- whether `config.listen` parses, and to an IPv6 address
  pub listen_is_ipv6 : Option Bool
  -- `crypto::server_config`
  pub tls : Result TlsError (QuicConfig I)
  pub socket : SocketCall → Bool
  pub runtime : Bool
  pub endpoint : Bool

-- What the loop starts with.
pub record Started : Type 0 where
  pub token : Text
  pub tun : TunOptions
  pub socket : List SocketCall
  pub server : Server

unfoldable pub tun_options : ServerConfig → TunOptions
tun_options config = record {
  name = config.tun_name;
  address = config.tun_ip;
  prefix = config.tun_prefix;
  destination = some config.client_ip;
  mtu = config.mtu;
  enable_linux_offload = config.enable_linux_offload;
  tx_queue_len = config.tx_queue_len;
}

-- `result?` with the error's place in `main`.
abbrev at_call : {X A : Type 0} → (X → StartError) → Result X A → Result StartError A
at_call place (ok a) = ok a
at_call place (err e) = err (place e)

unfoldable pub start_up : {I : Type 0} → World I → Result StartError Started
unfolding tun_options
start_up w = do
  config ← at_call config_refused (load_toml w.from_str w.config_file)
  checked ← at_call config_refused (validate config)
  token ← at_call config_refused (load_token w.token_file)
  bail_if (not w.tun_created) tun_failed
  is_ipv6 ← context w.listen_is_ipv6 bad_listen
  server_config ← at_call tls_failed w.tls
  socket ← at_call socket_failed (
      create_udp_socket w.socket is_ipv6 config.listen config.udp_recv_buffer_bytes
        config.udp_send_buffer_bytes)
  bail_if (not w.runtime) no_runtime
  bail_if (not w.endpoint) no_endpoint
  ok (record { token = token; tun = tun_options config; socket = socket; server = start })
