-- ===== src/Server/Status.antt =====
-- internal/server/server.go: `handleStatus` and `handleMetrics`, which only read; and `SortedKeys` of
-- internal/metrics/state.go.
pub mod Pending
pub mod Reported
pub mod Sorted
pub mod Unordered
mod Tests
use infer_flow.Prelude.{
  ℕ, Bool, true, false, ◌&&◌, ◌||◌, ◌==◌, List, [], ◌∷◌, ◌++◌, Option, none, some, map, ltb,
  if◌then◌else◌,
}
use infer_flow.Text.{Text, text_eq, codes}
use infer_flow.Text.Decimal.{decimal}
use infer_flow.Assoc.{lookup}
use infer_flow.Int64.{add64, slt64, is_neg, neg64}
use infer_flow.Metrics.{
  Float64, get_in_flight, get_requests_total, get_backend_errors, get_kv_cache_hits,
  get_kv_cache_misses, strategy_snapshot, backend_snapshot, latency_snapshot,
}
use infer_flow.Router.Heap.{is_healthy}
use infer_flow.Server.State.{Server}
use infer_flow.Server.Chat.{Method, get}

-- `m[k]` on a map of numbers: 0 for a key that is not there.
unfoldable pub value_at : Text → List (Text × ℕ) → ℕ
value_at name m = elim (lookup name m) [ none ↦ 0 | some n ↦ n ]

pub record BackendStatus : Type 0 where
  pub name : Text
  pub healthy : Bool
  pub pending : ℕ
  pub latency_ms : ℕ

pub record StatusReport (F : Type 0) : Type 0 where
  pub strategy : Text
  pub backends : List BackendStatus
  pub requests_total : ℕ
  pub in_flight : ℕ
  pub backend_errors : ℕ
  pub kv_cache_hits : ℕ
  pub kv_cache_misses : ℕ
  pub kv_cache_hit_rate : F

-- A response with a body that is no text of `Server.Chat.Body`.
pub record Written (A : Type 0) : Type 0 where
  pub status : ℕ
  pub headers : List (Text × Text)
  pub body : A

-- The order of `sort.Strings`. The bytes of UTF-8 texts are in the order of the code points.
abbrev pub text_less : Text → Text → Bool
text_less s [] = false
text_less [] (d ∷ t) = true
text_less (c ∷ s) (d ∷ t) = ltb c d || (c == d && text_less s t)

unfoldable pub insert_key : Text → List Text → List Text
insert_key k [] = k ∷ []
insert_key k (j ∷ ks) = let rest = insert_key k ks in if text_less j k then j ∷ rest else k ∷ j ∷ ks

-- `SortedKeys`.
unfoldable pub sorted_keys : List (Text × ℕ) → List Text
unfolding insert_key
sorted_keys [] = []
sorted_keys (e ∷ values) = insert_key e.0 (sorted_keys values)

-- `%d` of an `int64`.
unfoldable pub signed_decimal : ℕ → Text
signed_decimal n = if is_neg n then b'-' ∷ decimal (neg64 n) else decimal n

abbrev metric_head : Text → Text → Text → Text
metric_head name help kind =
    codes "# HELP "
    ++ (name
        ++ (codes " "
            ++ (help ++ (10 ∷ codes "# TYPE " ++ (name ++ (codes " " ++ (kind ++ 10 ∷ [])))))))

abbrev metric_line : Text → ℕ → Text
metric_line name n = name ++ (codes " " ++ (signed_decimal n ++ 10 ∷ []))

module _ {S R F : Type 0} (float : Float64 F) where
  abbrev pub backend_status : Server S R F → ℕ → BackendStatus
  backend_status s b =
      let name = (s.heap.backend b).name in
      record {
        name = name;
        healthy = is_healthy s.heap b;
        pending = value_at name (backend_snapshot s.metrics);
        latency_ms = value_at name (latency_snapshot float s.metrics);
      }

  -- The loop over the backends of the configuration.
  unfoldable pub backend_statuses : Server S R F → List BackendStatus
  backend_statuses s = map (backend_status s) s.cfg.backends

  -- `handleStatus`; `none` is status 405.
  unfoldable pub handle_status : Server S R F → Method → Option (Written (StatusReport F))
  handle_status s get =
      let hits = get_kv_cache_hits s.metrics in
      let misses = get_kv_cache_misses s.metrics in
      let sum = add64 hits misses in
      some (record {
        status = 200;
        headers = (codes "Content-Type", codes "application/json") ∷ [];
        body = record {
          strategy = s.strategy_name;
          backends = backend_statuses s;
          requests_total = get_requests_total s.metrics;
          in_flight = get_in_flight s.metrics;
          backend_errors = get_backend_errors s.metrics;
          kv_cache_hits = hits;
          kv_cache_misses = misses;
          kv_cache_hit_rate =
              if slt64 0 sum
              then float.div (float.of_int64 hits) (float.of_int64 sum)
              else float.of_int64 0;
        };
      })
  handle_status s method = none

-- `handleMetrics`; `quote` is `%q`.
module _ (quote : Text → Text) where
  unfoldable pub label_lines : Text → List (Text × ℕ) → List Text → Text
  label_lines prefix counts [] = []
  label_lines prefix counts (name ∷ names) =
      prefix
      ++ (quote name
          ++ (codes "} "
              ++ (signed_decimal (value_at name counts) ++ 10 ∷ label_lines prefix counts names)))

  -- The text that is written.
  unfoldable pub metrics_lines : {S R F : Type 0} → Server S R F → Text
  metrics_lines s =
      let strategies = strategy_snapshot s.metrics in
      let backends = backend_snapshot s.metrics in
      metric_head (codes "inferflow_inflight_requests") (codes "Current in-flight requests.")
        (codes "gauge")
      ++ (metric_line (codes "inferflow_inflight_requests") (get_in_flight s.metrics)
          ++ (metric_head (codes "inferflow_requests_total")
                (codes "Total requests accepted by the router.") (codes "counter")
              ++ (metric_line (codes "inferflow_requests_total") (get_requests_total s.metrics)
                  ++ (metric_head (codes "inferflow_backend_errors_total")
                        (codes "Total backend request errors.") (codes "counter")
                      ++ (metric_line (codes "inferflow_backend_errors_total")
                            (get_backend_errors s.metrics)
                          ++ (metric_head (codes "inferflow_strategy_selections_total")
                                (codes "Total strategy selections.") (codes "counter")
                              ++ (label_lines
                                    (codes "inferflow_strategy_selections_total{strategy=")
                                    strategies (sorted_keys strategies)
                                  ++ (metric_head (codes "inferflow_backend_selections_total")
                                        (codes "Total backend selections.") (codes "counter")
                                      ++ label_lines
                                          (codes "inferflow_backend_selections_total{backend=")
                                          backends (sorted_keys backends)))))))))

  unfoldable pub handle_metrics : {S R F : Type 0} → Server S R F → Written Text
  handle_metrics s = record {
    status = 200;
    headers = (codes "Content-Type", codes "text/plain; version=0.0.4") ∷ [];
    body = metrics_lines s;
  }
