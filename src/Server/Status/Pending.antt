-- ===== src/Server/Status/Pending.antt =====
-- What `/api/status` calls the pending requests of a backend.
use infer_flow.Prelude.{
  ℕ, Bool, ◌+◌, ◌%◌, ◌≡◌, refl, ap, ◌∙◌, inl, inr, ◌||◌, List, [], ◌∷◌, Option, none, some, map,
  arith, Bool-cases, Option-cases, if◌then◌else◌,
}
use infer_flow.Text.{Text, text_eq, is_empty, text_beq}
use infer_flow.Int64.{two64, add64}
use infer_flow.Assoc.{lookup}
use infer_flow.Cache.Store.{Store}
use infer_flow.Metrics.{
  Metrics, Float64, new_metrics, record_latency, record_backend, record_strategy, dec_in_flight,
  inc_in_flight, inc_backend_errors, inc_requests_total, inc_kv_cache_hit, inc_kv_cache_miss,
}
use infer_flow.Metrics.Counts.{count_of, count_of-count_up}
use infer_flow.Proxy.{ChatCompletionRequest, ChatCompletionResponse}
use infer_flow.Router.Heap.{Heap}
use infer_flow.Router.Decision.{Outcome, ok, no_healthy_backend, panic, Decision}
use infer_flow.Router.Random.{Rng}
use infer_flow.Server.Request.{validate_chat_request}
use infer_flow.Server.State.{Server, Config, new_server}
use infer_flow.Server.Chat.{
  Method, get, post, put, options, other, Pending, Opened, rejected, dispatched, aborted, dispatch,
  record_selection, accept, open_chat, settle_chat, record_affinity, run_defers, close_chat,
}
use infer_flow.Server.Status.{value_at, backend_status, backend_statuses}
use infer_flow.Server.Status.Unordered.{snapshot_same}
use infer_flow.Server.System.{
  System, Step, opens, closes, switches, probes, Reach, here, next, initial,
}
use infer_flow.Server.System.Identity.{name_at, Reach-name}
use infer_flow.Server.System.Ledger.{set_strategy-metrics}
use infer_flow.Server.System.Service.{Reach-IsServing}

-- 1 for a request that is sent to a backend of the name, which the server knows by then.
abbrev pub sent_there : {S R F : Type 0} → Text → Server S R F × Opened F → ℕ
sent_there name (s, rejected r) = 0
sent_there name (s, dispatched p) = if text_beq (name_at s p.decision.backend) name then 1 else 0
sent_there name (s, aborted) = 0

value_at-count_of : (name : Text) (m : List (Text × ℕ)) → value_at name m ≡ count_of name m
unfolding value_at count_of
value_at-count_of name m = elim (Option-cases (lookup name m)) [
  | inl e ↦ rw (e, value_at) refl
  | inr (n, e) ↦ rw (e, value_at) refl
]

record_latency-backend_counts :
    {F : Type 0} (float : Float64 F) (name : Text) (ms : F) (m : Metrics F)
    → (record_latency float name ms m).backend_counts ≡ m.backend_counts
unfolding record_latency
record_latency-backend_counts float name ms m = ground arith

record_selection-count_of :
    {F : Type 0} (strategy backend name : Text) (hit : Bool) (m : Metrics F)
    → count_of name (record_selection strategy backend hit m).backend_counts ≡ (
        if text_beq backend name
        then add64 (count_of name m.backend_counts) 1
        else count_of name m.backend_counts)
unfolding record_selection record_strategy record_backend inc_in_flight inc_kv_cache_hit
    inc_kv_cache_miss
record_selection-count_of strategy backend name hit m =
    ground (arith, count_of-count_up backend name m.backend_counts)

counted :
    (b : Bool) (c k : ℕ)
    → c ≡ k % two64
    → (if b then add64 c 1 else c) ≡ (k + (if b then 1 else 0)) % two64
unfolding add64
counted b c k e = ground (arith, e)

-- As many selections of the name have been counted as requests have been sent, modulo 2 ^ 64.
abbrev Counts : {S R F : Type 0} → Text → ℕ → Server S R F → Type 0
Counts name n s = count_of name s.metrics.backend_counts ≡ n % two64

module _ {S R F : Type 0} (name : Text) (k : ℕ) where
  dispatch-Counts :
      (now : ℕ) (s : Server S R F) (r : ChatCompletionRequest F) (key : Text) (o : Outcome Decision)
      → Counts name k s
      → let d = dispatch now s r key o in Counts name (k + sent_there name d) d.0
  unfolding dispatch
  dispatch-Counts now s r key (ok d) e =
      record_selection-count_of s.strategy_name (name_at s d.backend) name d.cache_hit s.metrics
      ∙ counted (text_beq (name_at s d.backend) name) _ k e
  dispatch-Counts now s r key no_healthy_backend e = omega arith
  dispatch-Counts now s r key panic e = omega arith

  open_chat-Counts :
      (store : Store S) (g : Rng R) (sha256 : Text → List ℕ) (now : ℕ) (s : Server S R F)
      (method : Method) (body : Option (ChatCompletionRequest F))
      → Counts name k s
      → let o = open_chat store g sha256 now s method body in
        Counts name (k + sent_there name o) o.0
  unfolding open_chat accept inc_requests_total
  open_chat-Counts store g sha256 now s post none e = omega arith
  open_chat-Counts store g sha256 now s post (some r) e =
      elim (Option-cases (validate_chat_request r)) [
        | inl valid ↦ rw (valid, open_chat) (dispatch-Counts now _ r _ _ e)
        | inr (error, bad) ↦ rw (bad, open_chat) (omega arith)
      ]
  open_chat-Counts store g sha256 now s get body e = omega arith
  open_chat-Counts store g sha256 now s put body e = omega arith
  open_chat-Counts store g sha256 now s options body e = omega arith
  open_chat-Counts store g sha256 now s other body e = omega arith

module _ {S R F : Type 0} (store : Store S) (float : Float64 F) where
  -- The end of a request, whether it was answered or failed, counts no selection and forgets none.
  close_chat-backend_counts :
      (now : ℕ) (s : Server S R F) (p : Pending F) (answer : Option ChatCompletionResponse)
      → (close_chat store float now s p answer).0.metrics.backend_counts ≡ s.metrics.backend_counts
  unfolding close_chat settle_chat record_affinity run_defers dec_in_flight inc_backend_errors
  close_chat-backend_counts now s p none = record_latency-backend_counts float _ _ s.metrics
  close_chat-backend_counts now s p (some response) =
      elim (Bool-cases
        (is_empty p.cache_key || is_empty (s.heap.backend p.decision.backend).name)) [
          | inl e ↦ rw e (record_latency-backend_counts float _ _ s.metrics)
          | inr e ↦ rw e (record_latency-backend_counts float _ _ s.metrics)
        ]

module _ {S R F : Type 0} (store : Store S) (g : Rng R) (float : Float64 F) (lower : ℕ → ℕ)
    (sha256 : Text → List ℕ) where
  -- How many requests a step, and a run of the server, sends to backends of the name.
  unfoldable pub sent_by : Text → {w v : System S R F} → Step store g float lower sha256 w v → ℕ
  sent_by name {w} (opens now method body) =
      sent_there name (open_chat store g sha256 now w.server method body)
  sent_by name (closes now answer before after p e) = 0
  sent_by name (switches raw) = 0
  sent_by name (probes b answer) = 0

  unfoldable pub sent_in : Text → {w v : System S R F} → Reach store g float lower sha256 w v → ℕ
  sent_in name here = 0
  sent_in name (next r s) = sent_in name r + sent_by name s

  Step-Counts :
      (name : Text) (k : ℕ) {w v : System S R F} (s : Step store g float lower sha256 w v)
      → Counts name k w.server
      → Counts name (k + sent_by name s) v.server
  unfolding sent_by
  Step-Counts name k {w} (opens now method body) e =
      open_chat-Counts name k store g sha256 now w.server method body e
  Step-Counts name k {w} (closes now answer before after p at) e =
      rw (close_chat-backend_counts store float now w.server p answer) (omega (arith, e))
  Step-Counts name k {w} (switches raw) e =
      rw (set_strategy-metrics g lower raw w.server) (omega (arith, e))
  Step-Counts name k {w} (probes b answer) e = omega (arith, e)

  Reach-Counts :
      (name : Text) (cfg : Config) (st : S) (h : Heap) {w : System S R F}
      (run : Reach store g float lower sha256 (initial cfg st h) w)
      → Counts name (sent_in name run) w.server
  unfolding sent_in
  Reach-Counts name cfg st h here = unfold new_server new_metrics count_of lookup in omega arith
  Reach-Counts name cfg st h (next r s) = Step-Counts name _ s (Reach-Counts name cfg st h r)

  -- From the start, in every state that the server reaches: `/api/status` reports as `pending` of each
  -- backend of the configuration how many requests, modulo 2 ^ 64, have been sent to backends of its
  -- name since the start, whether they have been answered, have failed or wait.
  pub Reach-pending :
      (cfg : Config) (st : S) (h : Heap) {w : System S R F}
      (run : Reach store g float lower sha256 (initial cfg st h) w)
      → map (λ r. r.pending) (backend_statuses float w.server)
        ≡ map (λ b. sent_in (h.backend b).name run % two64) cfg.backends
  unfolding backend_statuses new_server
  Reach-pending cfg st h {w} run =
      go w.server.cfg.backends
      ∙ ap (map (λ b. sent_in (h.backend b).name run % two64))
          (Reach-IsServing store g float lower sha256 cfg st h run).configured
    where
      one :
          (b : ℕ)
          → (backend_status float w.server b).pending ≡ sent_in (h.backend b).name run % two64
      one b = rw (snapshot_same w.server.metrics.backend_counts) (
          value_at-count_of (name_at w.server b) w.server.metrics.backend_counts
          ∙ ap (λ name. count_of name w.server.metrics.backend_counts)
              (Reach-name store g float lower sha256 b run)
          ∙ Reach-Counts (h.backend b).name cfg st h run)

      go :
          (bs : List ℕ)
          → map (λ r. r.pending) (map (backend_status float w.server) bs)
            ≡ map (λ b. sent_in (h.backend b).name run % two64) bs
      go [] = refl
      go (b ∷ bs) = rw (one b, go bs) refl
