-- ===== src/Core/Tun.antt =====
-- crates/litevpn-core/src/tun.rs: the calls of the device builder that `create_tun` makes on each
-- operating system; the builder is of another package.
use rust_vpn.Prelude.{ℕ, Bool, true, false, Option, none, some, List, [], ◌∷◌, ◌++◌, if◌then◌else◌}
use rust_vpn.Core.Config.{Ipv4Addr}
use rust_vpn.Text.{Text, trim, is_empty}

-- The `target_os` of a build: those that `create_tun` names together, and the rest.
pub data TargetOs : Type 0 where
  linux macos bsd other_os : TargetOs

pub record TunOptions : Type 0 where
  pub name : Text
  pub address : Ipv4Addr
  pub prefix : ℕ
  pub destination : Option Ipv4Addr
  pub mtu : ℕ
  pub enable_linux_offload : Bool
  pub tx_queue_len : Option ℕ

pub data BuilderCall : Type 0 where
  layer_l3 : BuilderCall
  set_mtu : ℕ → BuilderCall
  ipv4 : Ipv4Addr → ℕ → Option Ipv4Addr → BuilderCall
  set_name : Text → BuilderCall
  packet_information offload multi_queue associate_route persist : Bool → BuilderCall
  set_tx_queue_len : ℕ → BuilderCall

-- `if let Some(tx_queue_len) = options.tx_queue_len`
abbrev queue_calls : Option ℕ → List BuilderCall
queue_calls none = []
queue_calls (some tx_queue_len) = set_tx_queue_len tx_queue_len ∷ []

-- The three blocks with a `cfg`.
unfoldable pub platform_calls : TargetOs → TunOptions → List BuilderCall
platform_calls linux options =
    packet_information false
    ∷ offload options.enable_linux_offload
    ∷ multi_queue false
    ∷ queue_calls options.tx_queue_len
platform_calls macos options = packet_information false ∷ associate_route true ∷ persist false ∷ []
platform_calls bsd options = packet_information false ∷ []
platform_calls other_os options = []

-- The calls of `create_tun` in front of `build_async`.
unfoldable pub create_tun : TargetOs → TunOptions → List BuilderCall
unfolding trim platform_calls
create_tun os options =
    layer_l3
      ∷ set_mtu options.mtu
      ∷ ipv4 options.address options.prefix options.destination
      ∷ (if is_empty (trim options.name) then [] else set_name options.name ∷ [])
    ++ platform_calls os options
