-- ===== src/Server/Schedule/Turns.antt =====
-- crates/litevpn-server/src/main.rs: what is left of a task, and what a turn is to the other tasks.
use rust_vpn.Prelude.{ℕ, ◌≡◌, refl, false, none, some, ◌==◌, arith}
use rust_vpn.Core.Config.Server.{ServerConfig}
use rust_vpn.Server.{
  Phase, absent, authenticating, benching, admitted, numbered, replacing, serving, ended, finished,
  Server, take_id, replace, close_previous, clean_up,
}
use rust_vpn.Server.Schedule.{Incoming, turn_in}
use rust_vpn.Text.{Text}

-- The calls that still have to return before a task has ended, at most, and the end itself.
unfoldable pub turns_left : Phase → ℕ
turns_left absent = 7
turns_left authenticating = 6
turns_left admitted = 5
turns_left (numbered id) = 4
turns_left (replacing id previous) = 3
turns_left (serving id) = 2
turns_left benching = 2
turns_left (ended client_id) = 1
turns_left finished = 0

module _ (config : ServerConfig) (token : Text) (incoming : ℕ → Incoming) where
  -- A turn is no matter to the other tasks.
  pub turn_in-other :
      (s : Server) (n m : ℕ) (phase : Phase)
      → (m == n) ≡ false
      → (turn_in config token incoming s n phase).tasks m ≡ s.tasks m
  unfolding turn_in
  turn_in-other s n m absent e = ground arith
  turn_in-other s n m authenticating e = ground arith
  turn_in-other s n m benching e = ground arith
  turn_in-other s n m admitted e = unfold take_id in ground arith
  turn_in-other s n m (numbered id) e = unfold replace in ground arith
  turn_in-other s n m (replacing id none) e = unfold close_previous in ground arith
  turn_in-other s n m (replacing id (some p)) e = unfold close_previous in ground arith
  turn_in-other s n m (serving id) e = ground arith
  turn_in-other s n m (ended none) e = unfold clean_up in ground arith
  turn_in-other s n m (ended (some id)) e = unfold clean_up in ground arith
  turn_in-other s n m finished e = refl
