-- ===== src/Client/Bench/Aggregate.antt =====
-- crates/litevpn-client/src/main.rs: `print_bench_aggregate`, as the numbers that it prints. The infinities
-- of `f64` and what its `sum` starts from are arguments beside `Float`.
use rust_vpn.Prelude.{
  ℕ, ◌+◌, ◌/◌, ◌%◌, ◌^◌, Option, none, some, List, [], ◌∷◌, map, leb, ◌==◌, if◌then◌else◌, length,
}
use rust_vpn.Client.Bench.{BenchMeasurement}
use rust_vpn.Client.Summary.{ServerBenchMeasurement}
use rust_vpn.Core.Quic.Pacer.{Float}

-- The numbers of both lines.
pub record Rates (F : Type 0) : Type 0 where
  pub avg_mbps : F
  pub min_mbps : F
  pub max_mbps : F

pub record LocalAggregate (F : Type 0) : Type 0 where
  pub runs : ℕ
  pub rates : Rates F
  pub total_bytes : ℕ
  pub total_packets : ℕ
  pub total_elapsed_ms : ℕ

pub record ServerAggregate (F : Type 0) : Type 0 where
  pub runs : ℕ
  pub rates : Rates F
  pub total_bytes : ℕ
  pub total_packets : ℕ
  pub lost_packets : ℕ
  pub congestion_events : ℕ
  pub total_elapsed_ms : ℕ

-- `sum` of a type with this many bits, wrapping around from an intermediate sum on.
unfoldable pub sum_from : ℕ → ℕ → List ℕ → ℕ
sum_from bits n [] = n
sum_from bits n (x ∷ xs) = sum_from bits ((n + x) % 2 ^ bits) xs

abbrev sum_u64 : {A : Type 0} → (A → ℕ) → List A → ℕ
sum_u64 g xs = sum_from 64 0 (map g xs)

fold_left : {A B : Type 0} → (B → A → B) → B → List A → B
fold_left g b [] = b
fold_left g b (a ∷ rest) = fold_left g (g b a) rest

-- `filter_map(|measurement| measurement.server)`
unfoldable pub server_measurements :
    {F : Type 0} → List (BenchMeasurement F) → List (ServerBenchMeasurement F)
server_measurements [] = []
server_measurements (m ∷ ms) = elim m.server [
  | none ↦ server_measurements ms
  | some server ↦ server ∷ server_measurements ms
]

module _ {F : Type 0} (f : Float F) (sum_start infinity neg_infinity : F) where
  unfoldable pub rates : ℕ → List F → Rates F
  unfolding fold_left
  rates runs mbps = record {
    avg_mbps = f.div (fold_left f.add sum_start mbps) (f.of_u64 runs);
    min_mbps = fold_left f.smaller infinity mbps;
    max_mbps = fold_left f.larger neg_infinity mbps;
  }

  local_aggregate : List (BenchMeasurement F) → LocalAggregate F
  unfolding rates sum_from
  local_aggregate ms = record {
    runs = length ms;
    rates = rates (length ms) (map (λ m. m.mbps) ms);
    total_bytes = sum_u64 (λ m. m.bytes) ms;
    total_packets = sum_u64 (λ m. m.packets) ms;
    total_elapsed_ms = sum_from 128 0 (map (λ m. m.elapsed / 1_000_000) ms);
  }

  server_aggregate : ℕ → List (ServerBenchMeasurement F) → ServerAggregate F
  unfolding rates sum_from
  server_aggregate runs ms = record {
    runs = runs;
    rates = rates runs (map (λ m. m.mbps) ms);
    total_bytes = sum_u64 (λ m. m.bytes) ms;
    total_packets = sum_u64 (λ m. m.packets) ms;
    lost_packets = sum_u64 (λ m. m.lost_packets) ms;
    congestion_events = sum_u64 (λ m. m.congestion_events) ms;
    total_elapsed_ms = sum_u64 (λ m. m.elapsed_ms) ms;
  }

  -- Nothing for one run; the server's line only where each run has its summary.
  unfoldable pub print_bench_aggregate :
      List (BenchMeasurement F) → Option (LocalAggregate F × Option (ServerAggregate F))
  unfolding local_aggregate server_aggregate server_measurements
  print_bench_aggregate ms =
      let servers = server_measurements ms in
      if leb (length ms) 1
      then none
      else some (
        local_aggregate ms,
        if length servers == length ms then some (server_aggregate (length ms) servers) else none,
      )
