-- ===== src/Bench.antt =====
-- The bench of crates/litevpn-server/src/main.rs and crates/litevpn-client/src/main.rs: what both ends
-- count, and how their loops end. The loops themselves stand in Bench/Datagram and Bench/Stream; an
-- end uses them in Server/Bench and Client/Bench.
pub mod Datagram
pub mod Stream
use rust_vpn.Prelude.{
  ℕ, zero, suc, ◌+◌, ◌*◌, ◌%◌, ◌^◌, ◌<◌, ◌≡◌, refl, List, [], ◌∷◌, arith, Bool, true, false, subst,
  if◌then◌else◌,
}
use rust_vpn.Core.Quic.Frame.{FrameError}

-- One constructor for each `?` and `bail!` of the bench.
pub data BenchError : Type 0 where
  zero_duration connection_closed closed_in_backlog datagram_failed : BenchError
  open_failed accept_failed read_failed write_failed finish_failed stop_failed : BenchError
  frame_failed : FrameError → BenchError
  summary_open_failed summary_write_failed summary_finish_failed : BenchError
  no_summary summary_timed_out timed_out : BenchError
  connect_failed auth_failed panicked : BenchError

-- A call's value, its error, or that it still runs where the observations end.
pub data Ran (A : Type 0) : Type 0 where
  ran : A → Ran A
  failed : BenchError → Ran A
  running : Ran A

infixl 5 ◌>>=◌
abbrev pub ◌>>=◌ : {A B : Type 0} → Ran A → (A → Ran B) → Ran B
ran a >>= f = f a
failed e >>= f = failed e
running >>= f = running

-- A loop that stops where its test says so.
pub stop_or_go :
    {A : Type 0} (P : A → Type 0) (stop : Bool) (a b : A) (go : Ran A)
    → (if stop then ran a else go) ≡ ran b
    → P a
    → (go ≡ ran b → P b)
    → P b
stop_or_go P true a b go e h k = subst P (ground arith) h
stop_or_go P false a b go e h k = k e

-- The two `u64` that every loop counts in. They wrap around, as in a release build.
pub record Counts : Type 0 where
  pub packets : ℕ
  pub bytes : ℕ

abbrev pub nothing : Counts
nothing = record { packets = 0; bytes = 0 }

-- `packets += 1; bytes += n as u64;`
unfoldable pub add_packet : Counts → ℕ → Counts
add_packet c n = record { packets = (c.packets + 1) % 2 ^ 64; bytes = (c.bytes + n) % 2 ^ 64 }

-- The counts behind a number of packets of one length, and behind packets of these lengths.
unfoldable pub add_packets : Counts → ℕ → ℕ → Counts
add_packets c zero n = c
add_packets c (suc k) n = add_packets (add_packet c n) k n

unfoldable pub add_lengths : Counts → List ℕ → Counts
add_lengths c [] = c
add_lengths c (n ∷ ns) = add_lengths (add_packet c n) ns

abbrev pub sum : List ℕ → ℕ
sum [] = 0
sum (n ∷ ns) = n + sum ns

abbrev pub count : List ℕ → ℕ
count [] = 0
count (n ∷ ns) = suc (count ns)

-- What the two counters hold: the number of packets and of bytes, as long as 64 bits can tell.
pub add_lengths-counts :
    (c : Counts) (ns : List ℕ)
    → ((add_lengths c ns).packets % 2 ^ 64 ≡ (c.packets + count ns) % 2 ^ 64)
      × ((add_lengths c ns).bytes % 2 ^ 64 ≡ (c.bytes + sum ns) % 2 ^ 64)
unfolding add_lengths add_packet
add_lengths-counts c [] = omega arith
add_lengths-counts c (n ∷ ns) = omega (arith, add_lengths-counts (add_packet c n) ns)

pub add_packets-counts :
    (c : Counts) (k n : ℕ)
    → ((add_packets c k n).packets % 2 ^ 64 ≡ (c.packets + k) % 2 ^ 64)
      × ((add_packets c k n).bytes % 2 ^ 64 ≡ (c.bytes + k * n) % 2 ^ 64)
unfolding add_packets add_packet
add_packets-counts c zero n = grind arith
add_packets-counts c (suc k) n =
    let step : suc k * n ≡ n + k * n = grind arith in
    omega (arith, step, add_packets-counts (add_packet c n) k n)

-- Both counters fit in 64 bits.
abbrev pub InRange : Counts → Type 0
InRange c = (c.packets < 2 ^ 64) × (c.bytes < 2 ^ 64)

pub add_packets-InRange : (c : Counts) (k n : ℕ) → InRange c → InRange (add_packets c k n)
unfolding add_packets add_packet
add_packets-InRange c zero n h = h
add_packets-InRange c (suc k) n h = add_packets-InRange (add_packet c n) k n (omega arith)
