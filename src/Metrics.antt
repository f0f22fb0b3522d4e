-- ===== src/Metrics.antt =====
-- internal/metrics/state.go: counters of the router, as 64-bit words, and the moving averages of the
-- latencies. A nil map reads as an empty one and is made by the first write, so both are the empty list.
pub mod Counts
pub mod Unordered
use infer_flow.Prelude.{ℕ, List, [], none, some, map}
use infer_flow.Text.{Text, text_eq}
use infer_flow.Assoc.{lookup, insert}
use infer_flow.Int64.{add64, sub64}

-- `float64`: the operations that the source uses, and its literals in tenths.
pub record Float64 (F : Type 0) : Type 0 where
  pub add : F → F → F
  pub mul : F → F → F
  pub div : F → F → F
  pub of_int64 : ℕ → F
  pub to_int64 : F → ℕ
  pub of_tenths : ℕ → F

pub record Metrics (F : Type 0) : Type 0 where
  pub in_flight : ℕ
  pub requests_total : ℕ
  pub backend_errors : ℕ
  pub kv_cache_hits : ℕ
  pub kv_cache_misses : ℕ
  pub strategy_counts : List (Text × ℕ)
  pub backend_counts : List (Text × ℕ)
  pub latency_ema : List (Text × F)

-- `counterFor(target, name).Add(1)`.
unfoldable pub count_up : Text → List (Text × ℕ) → List (Text × ℕ)
count_up name counts = elim (lookup name counts) [
  | none ↦ insert name (add64 0 1) counts
  | some n ↦ insert name (add64 n 1) counts
]

-- The loop of `snapshot` and of `LatencySnapshot`.
unfoldable pub snapshot : List (Text × ℕ) → List (Text × ℕ)
snapshot source = map (λ e. (e.0, e.1)) source

module _ {F : Type 0} where
  unfoldable pub new_metrics : Metrics F
  new_metrics = record {
    in_flight = 0;
    requests_total = 0;
    backend_errors = 0;
    kv_cache_hits = 0;
    kv_cache_misses = 0;
    strategy_counts = [];
    backend_counts = [];
    latency_ema = [];
  }

  unfoldable pub inc_in_flight : Metrics F → Metrics F
  inc_in_flight s = record s { in_flight = add64 s.in_flight 1 }

  unfoldable pub dec_in_flight : Metrics F → Metrics F
  dec_in_flight s = record s { in_flight = sub64 s.in_flight 1 }

  unfoldable pub inc_requests_total : Metrics F → Metrics F
  inc_requests_total s = record s { requests_total = add64 s.requests_total 1 }

  unfoldable pub inc_backend_errors : Metrics F → Metrics F
  inc_backend_errors s = record s { backend_errors = add64 s.backend_errors 1 }

  unfoldable pub inc_kv_cache_hit : Metrics F → Metrics F
  inc_kv_cache_hit s = record s { kv_cache_hits = add64 s.kv_cache_hits 1 }

  unfoldable pub inc_kv_cache_miss : Metrics F → Metrics F
  inc_kv_cache_miss s = record s { kv_cache_misses = add64 s.kv_cache_misses 1 }

  unfoldable pub record_strategy : Text → Metrics F → Metrics F
  record_strategy name s = record s { strategy_counts = count_up name s.strategy_counts }

  unfoldable pub record_backend : Text → Metrics F → Metrics F
  record_backend name s = record s { backend_counts = count_up name s.backend_counts }

  -- The getters.
  abbrev pub get_in_flight : Metrics F → ℕ
  get_in_flight s = s.in_flight

  abbrev pub get_requests_total : Metrics F → ℕ
  get_requests_total s = s.requests_total

  abbrev pub get_backend_errors : Metrics F → ℕ
  get_backend_errors s = s.backend_errors

  abbrev pub get_kv_cache_hits : Metrics F → ℕ
  get_kv_cache_hits s = s.kv_cache_hits

  abbrev pub get_kv_cache_misses : Metrics F → ℕ
  get_kv_cache_misses s = s.kv_cache_misses

  abbrev pub strategy_snapshot : Metrics F → List (Text × ℕ)
  strategy_snapshot s = snapshot s.strategy_counts

  abbrev pub backend_snapshot : Metrics F → List (Text × ℕ)
  backend_snapshot s = snapshot s.backend_counts

  module _ (float : Float64 F) where
    -- `alpha*ms + (1-alpha)*prev` with `alpha = 0.2`; `1-alpha` is computed by the compiler.
    unfoldable pub mix : F → F → F
    mix ms prev = float.add (float.mul (float.of_tenths 2) ms) (float.mul (float.of_tenths 8) prev)

    unfoldable pub record_latency : Text → F → Metrics F → Metrics F
    record_latency name ms s = elim (lookup name s.latency_ema) [
      | some prev ↦ record s { latency_ema = insert name (mix ms prev) s.latency_ema }
      | none ↦ record s { latency_ema = insert name ms s.latency_ema }
    ]

    unfoldable pub latency_snapshot : Metrics F → List (Text × ℕ)
    latency_snapshot s = map (λ e. (e.0, float.to_int64 e.1)) s.latency_ema
