-- ===== src/Server/Chat.antt =====
-- internal/server/server.go: the handlers. `handleChatCompletions` waits for the backend in its
-- middle, while other requests run: it is two functions, before and after that wait.
use infer_flow.Prelude.{
  ℕ, ◌-◌, ◌/◌, Bool, false, ◌||◌, List, [], ◌∷◌, ◌++◌, Option, none, some, if◌then◌else◌,
}
use infer_flow.Text.{Text, codes, is_empty, text_beq}
use infer_flow.Cache.Store.{Store}
use infer_flow.Proxy.{ChatCompletionRequest, ChatCompletionResponse}
use infer_flow.Metrics.{
  Metrics, Float64, inc_in_flight, dec_in_flight, inc_requests_total, inc_backend_errors,
  inc_kv_cache_hit, inc_kv_cache_miss, record_strategy, record_backend, record_latency,
}
use infer_flow.Router.Heap.{Heap}
use infer_flow.Router.Heap
use infer_flow.Router.Random.{Rng}
use infer_flow.Router.Decision.{
  SelectionInput, Outcome, ok, no_healthy_backend, panic, Decision, release,
}
use infer_flow.Router.Strategy.{Selected, kv_aware_name}
use infer_flow.Router.Strategy
use infer_flow.Server.Request.{
  RequestError, validate_chat_request, estimate_request_cost, build_cache_key,
}
use infer_flow.Server.State.{Server}

pub data Method : Type 0 where
  get : Method
  post : Method
  put : Method
  options : Method
  other : Method

-- What a handler writes: `http.Error` writes a message, `writeJSON` a value.
pub data Body : Type 0 where
  message : Text → Body
  status_is : Text → Body
  health : Text → ℕ → Body
  strategy_is : Text → Body
  completion : ChatCompletionResponse → Body

pub record Response : Type 0 where
  pub status : ℕ
  pub headers : List (Text × Text)
  pub body : Body

-- `writeJSON`, on top of the headers that the handler has set.
abbrev pub write_json : List (Text × Text) → ℕ → Body → Response
write_json headers status payload = record {
  status = status;
  headers = headers ++ (codes "Content-Type", codes "application/json") ∷ [];
  body = payload;
}

-- `http.Error`, without the headers that it sets by itself.
abbrev pub fail : ℕ → Text → Response
fail status text = record { status = status; headers = []; body = message text }

-- A request that waits for its backend.
pub record Pending (F : Type 0) : Type 0 where
  pub request : ChatCompletionRequest F
  pub decision : Decision
  pub strategy_name : Text
  pub cache_key : Text
  pub started : ℕ

-- `aborted` is a panic in the handler, which `net/http` turns into a closed connection.
pub data Opened (F : Type 0) : Type 0 where
  rejected : Response → Opened F
  dispatched : Pending F → Opened F
  aborted : Opened F

abbrev pub error_text : RequestError → Text
error_text RequestError.model_required = codes "model is required"
error_text RequestError.messages_empty = codes "messages must not be empty"

-- The headers that name the backend, the strategy and, for `kv_aware`, the hit.
unfoldable pub route_headers : Text → Text → Bool → List (Text × Text)
route_headers backend strategy hit =
    (codes "X-Inferflow-Backend", backend)
    ∷ (codes "X-Inferflow-Strategy", strategy)
    ∷ (if text_beq strategy kv_aware_name
        then (codes "X-Inferflow-Cache-Hit", if hit then codes "true" else codes "false") ∷ []
        else [])

-- The counters that a selection moves.
unfoldable pub record_selection : {F : Type 0} → Text → Text → Bool → Metrics F → Metrics F
record_selection strategy backend hit m =
    let m' = record_backend backend (record_strategy strategy m) in
    inc_in_flight (
      if text_beq strategy kv_aware_name
      then (if hit then inc_kv_cache_hit m' else inc_kv_cache_miss m')
      else m')

abbrev pub store_or : {S : Type 0} → S → Option S → S
store_or st none = st
store_or st (some st') = st'

module _ {S R F : Type 0} where
  -- The server with the memory that a selection leaves behind.
  abbrev pub after_select : Server S R F → Selected S R → S → Server S R F
  after_select s r st = record s { cache_store = st; heap = r.heap; strategy = r.strategy }

  unfoldable pub dispatch :
      ℕ → Server S R F → ChatCompletionRequest F → Text → Outcome Decision → Server S R F × Opened F
  dispatch now s r key no_healthy_backend =
      (s, rejected (fail 503 (codes "no healthy backend available")))
  dispatch now s r key panic = (s, aborted)
  dispatch now s r key (ok d) = (
    record s {
      metrics =
          record_selection s.strategy_name (s.heap.backend d.backend).name d.cache_hit s.metrics;
    },
    dispatched (record {
      request = r;
      decision = d;
      strategy_name = s.strategy_name;
      cache_key = key;
      started = now;
    }),
  )

module _ {S R F : Type 0} (store : Store S) (g : Rng R) (sha256 : Text → List ℕ) where
  -- A validated request: it is counted, and the active strategy is asked.
  unfoldable pub accept : ℕ → Server S R F → ChatCompletionRequest F → Server S R F × Opened F
  accept now s r =
      let key = build_cache_key sha256 r.model r.messages in
      let counted = record s { metrics = inc_requests_total s.metrics } in
      let input : SelectionInput = record {
        estimated_cost = estimate_request_cost r.messages;
        cache_key = key;
      } in
      let selected = Strategy.select store g now s.heap (some s.cache_store) s.strategy input in
      dispatch now (after_select counted selected (store_or s.cache_store selected.store)) r key
        selected.decision

  -- `handleChatCompletions` up to the call of the backend; a body that does not decode is `none`.
  unfoldable pub open_chat :
      ℕ → Server S R F → Method → Option (ChatCompletionRequest F) → Server S R F × Opened F
  open_chat now s post (some r) = elim (validate_chat_request r) [
    | some e ↦ (s, rejected (fail 400 (error_text e)))
    | none ↦ accept now s r
  ]
  open_chat now s post none = (s, rejected (fail 400 (codes "invalid json")))
  open_chat now s method body = (s, rejected (fail 405 (codes "method not allowed")))

module _ {S R F : Type 0} (store : Store S) where
  -- `recordAffinity`. The store's error is dropped.
  unfoldable pub record_affinity : ℕ → Text → Text → Server S R F → Server S R F
  record_affinity now key backend s = if is_empty key || is_empty backend then s else record s {
    cache_store = (store.remember_backend now key backend s.cfg.cache_ttl s.cache_store).0;
  }

module _ {S R F : Type 0} where
  -- The deferred calls, in their order: `DecInFlight`, then `Release`.
  unfoldable pub run_defers : Pending F → Server S R F → Server S R F
  run_defers p s = record s {
    metrics = dec_in_flight s.metrics;
    heap = (release p.decision s.heap).1;
  }

module _ {S R F : Type 0} (store : Store S) where
  -- What the handler does with the backend's answer, before the deferred calls.
  unfoldable pub settle_chat :
      ℕ → Server S R F → Pending F → Option ChatCompletionResponse → Server S R F × Response
  settle_chat now s p none = (
    record s {
      heap = Heap.set_healthy p.decision.backend false s.heap;
      metrics = inc_backend_errors s.metrics;
    },
    record {
      status = 502;
      headers =
          route_headers (s.heap.backend p.decision.backend).name p.strategy_name
            p.decision.cache_hit;
      body = message (codes "backend request failed");
    },
  )
  settle_chat now s p (some response) = (
    record_affinity store now p.cache_key (s.heap.backend p.decision.backend).name s,
    write_json
        (route_headers (s.heap.backend p.decision.backend).name p.strategy_name
          p.decision.cache_hit)
        200 (completion response),
  )

module _ {S R F : Type 0} (store : Store S) (float : Float64 F) where
  -- `handleChatCompletions` from the backend's answer on, where `none` is an error. The latency is
  -- taken in whole milliseconds.
  unfoldable pub close_chat :
      ℕ → Server S R F → Pending F → Option ChatCompletionResponse → Server S R F × Response
  close_chat now s p answer =
      let name = (s.heap.backend p.decision.backend).name in
      let timed = record s {
        metrics =
            record_latency float name (float.of_int64 ((now - p.started) / 1000000)) s.metrics;
      } in
      let (settled, response) = settle_chat store now timed p answer in
      (run_defers p settled, response)
