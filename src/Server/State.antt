-- ===== src/Server/State.antt =====
-- internal/server/server.go: the state of the server and the switch of its strategy.
use infer_flow.Prelude.{ℕ, List, [], ◌∷◌, Option, none, some, if◌then◌else◌}
use infer_flow.Text.{Text, text_beq}
use infer_flow.Metrics.{Metrics, new_metrics}
use infer_flow.Proxy.Client.{Net, check_backend}
use infer_flow.Router.Heap.{Heap}
use infer_flow.Router.Heap
use infer_flow.Router.Random.{Rng, new_random}
use infer_flow.Router.RoundRobin.{new_round_robin}
use infer_flow.Router.LeastPending.{new_least_pending}
use infer_flow.Router.KvAware.{new_kv_aware}
use infer_flow.Router.Strategy.{
  Strategy, round_robin, least_pending, random, kv_aware, round_robin_name, least_pending_name,
  random_name, kv_aware_name, name_of,
}
use infer_flow.Server.Names.{
  NameResult, named, refused, unsupported_strategy, normalize_strategy_name,
}

-- Durations are in nanoseconds.
pub record Config : Type 0 where
  pub listen_addr : Text
  pub backends : List ℕ
  pub probe_interval : ℕ
  pub backend_request_timeout : ℕ
  pub cache_ttl : ℕ

-- `S` is the state of the affinity store, which is never nil behind `New`, `R` that of the random
-- generator, and `F` is `float64`. `heap` holds the backends and the load counters.
pub record Server (S R F : Type 0) : Type 0 where
  pub cfg : Config
  pub metrics : Metrics F
  pub cache_store : S
  pub heap : Heap
  pub strategy : Strategy R
  pub strategy_name : Text

-- `New`, with the store that it settles on.
unfoldable pub new_server : {S R F : Type 0} → Config → S → Heap → Server S R F
new_server cfg store h =
    let rr = round_robin (new_round_robin cfg.backends) in
    record {
      cfg = cfg;
      metrics = new_metrics;
      cache_store = store;
      heap = h;
      strategy = rr;
      strategy_name = name_of rr;
    }

module _ {R : Type 0} (g : Rng R) where
  -- The `switch` of `setStrategy`.
  unfoldable pub make_strategy : Text → List ℕ → Heap → Option (Heap × Strategy R)
  make_strategy name bs h =
      if text_beq name round_robin_name
      then some (h, round_robin (new_round_robin bs))
      else if text_beq name least_pending_name
      then (let (h', s) = new_least_pending bs h in some (h', least_pending s))
      else if text_beq name random_name
      then some (h, random (new_random g bs))
      else if text_beq name kv_aware_name
      then (let (h', s) = new_kv_aware bs h in some (h', kv_aware s))
      else none

abbrev pub install :
    {S R F : Type 0} → Server S R F → Text → Option (Heap × Strategy R) → Server S R F × NameResult
install s name none = (s, refused unsupported_strategy)
install s name (some (h, next)) =
    (record s { heap = h; strategy = next; strategy_name = name }, named name)

module _ {S R F : Type 0} (g : Rng R) where
  -- `setStrategy` behind the test of the name.
  abbrev pub adopt : Server S R F → NameResult → Server S R F × NameResult
  adopt s (refused e) = (s, refused e)
  adopt s (named name) = install s name (make_strategy g name s.cfg.backends s.heap)

  -- `setStrategy`.
  unfoldable pub set_strategy : (ℕ → ℕ) → Text → Server S R F → Server S R F × NameResult
  set_strategy lower raw s = adopt s (normalize_strategy_name lower raw)

-- The loop of `probeBackends`.
unfoldable pub probe_backends : {F : Type 0} → Net F → List ℕ → Heap → Heap
probe_backends net [] h = h
probe_backends net (b ∷ bs) h =
    probe_backends net bs (Heap.set_healthy b (check_backend net (h.backend b)) h)
