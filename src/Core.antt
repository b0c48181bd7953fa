-- ===== src/Core.antt =====
-- crates/litevpn-core: the constants of src/lib.rs, and a module for each source file.
pub mod Config
pub mod Auth
pub mod Quic
pub mod Token
pub mod Tun
pub mod Transport
pub mod Tls
use rust_vpn.Prelude.{ℕ, ◌*◌}
use rust_vpn.Text.{Text, chars}
use rust_vpn.Text.Utf8.{Bytes}

abbrev pub alpn : Bytes
alpn = chars "litevpn/1"

abbrev pub auth_magic : Bytes
auth_magic = chars "LVPN1 "

abbrev pub auth_ok : Bytes
auth_ok = chars "OK\n"

abbrev pub auth_err : Bytes
auth_err = chars "ERR\n"

abbrev pub default_mtu : ℕ
default_mtu = 1300

abbrev pub max_mtu : ℕ
max_mtu = 1400

abbrev pub default_datagram_buffer_bytes : ℕ
default_datagram_buffer_bytes = 4 * 1024 * 1024

abbrev pub default_datagram_backlog_packets : ℕ
default_datagram_backlog_packets = 64

abbrev pub default_udp_socket_buffer_bytes : ℕ
default_udp_socket_buffer_bytes = 0
