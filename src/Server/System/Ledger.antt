-- ===== src/Server/System/Ledger.antt =====
-- The counters of the metrics agree with one another.
use infer_flow.Prelude.{
  ℕ, ◌-◌, ◌/◌, ◌≡◌, refl, inl, inr, Bool, ◌||◌, List, Option, none, some, arith, Bool-cases,
  Option-cases,
}
use infer_flow.Text.{Text, is_empty}
use infer_flow.Int64.{add64, add64_assoc}
use infer_flow.Assoc.{lookup}
use infer_flow.Cache.Store.{Store}
use infer_flow.Metrics.{
  Metrics, Float64, new_metrics, record_strategy, record_backend, record_latency, inc_in_flight,
  dec_in_flight, inc_kv_cache_hit, inc_kv_cache_miss, inc_requests_total, inc_backend_errors,
}
use infer_flow.Metrics.Counts.{count_of, total, count_of-count_up, total-count_up}
use infer_flow.Proxy.{ChatCompletionRequest, ChatCompletionResponse}
use infer_flow.Router.Heap.{Heap}
use infer_flow.Router.Decision.{Outcome, ok, no_healthy_backend, panic, Decision}
use infer_flow.Router.Random.{Rng}
use infer_flow.Router.Strategy.{kv_aware_name, Strategy}
use infer_flow.Server.Names.{NameResult, named, refused, normalize_strategy_name}
use infer_flow.Server.Request.{validate_chat_request}
use infer_flow.Server.State.{
  Server, Config, new_server, set_strategy, adopt, install, make_strategy,
}
use infer_flow.Server.Chat.{
  Method, get, post, put, options, other, Pending, record_selection, record_affinity, settle_chat,
  dispatch, accept, open_chat, close_chat, run_defers,
}
use infer_flow.Server.System.{
  System, Step, opens, closes, switches, probes, Reach, here, next, initial,
}

-- As many selections are counted by strategy as by backend, and each selection of `kv_aware` is
-- counted as a hit or as a miss.
pub record IsLedger {F : Type 0} (m : Metrics F) : Type 0 where
  pub selections : total m.strategy_counts ≡ total m.backend_counts
  pub hits_and_misses :
      add64 m.kv_cache_hits m.kv_cache_misses ≡ count_of kv_aware_name m.strategy_counts

hit_or_miss : (hits misses : ℕ) → add64 (add64 hits 1) misses ≡ add64 (add64 hits misses) 1
unfolding add64
hit_or_miss hits misses = omega arith

module _ {F : Type 0} where
  record_selection-IsLedger :
      (strategy backend : Text) (hit : Bool) (m : Metrics F)
      → IsLedger m
      → IsLedger (record_selection strategy backend hit m)
  unfolding record_selection record_strategy record_backend inc_in_flight inc_kv_cache_hit
      inc_kv_cache_miss
  record_selection-IsLedger strategy backend hit m l = record {
    selections = ground (
      arith,
      total-count_up strategy m.strategy_counts,
      total-count_up backend m.backend_counts,
      l.selections,
    );
    hits_and_misses = ground (
      arith,
      count_of-count_up strategy kv_aware_name m.strategy_counts,
      l.hits_and_misses,
      hit_or_miss m.kv_cache_hits m.kv_cache_misses,
      add64_assoc m.kv_cache_hits m.kv_cache_misses 1,
    );
  }

  record_latency-IsLedger :
      (float : Float64 F) (name : Text) (ms : F) (m : Metrics F)
      → IsLedger m
      → IsLedger (record_latency float name ms m)
  unfolding record_latency
  record_latency-IsLedger float name ms m l = record {
    selections = ground (arith, l.selections);
    hits_and_misses = ground (arith, l.hits_and_misses);
  }

module _ {S R F : Type 0} where
  dispatch-IsLedger :
      (now : ℕ) (s : Server S R F) (r : ChatCompletionRequest F) (key : Text) (o : Outcome Decision)
      → IsLedger s.metrics
      → IsLedger (dispatch now s r key o).0.metrics
  unfolding dispatch
  dispatch-IsLedger now s r key (ok d) l =
      record_selection-IsLedger s.strategy_name (s.heap.backend d.backend).name d.cache_hit
        s.metrics l
  dispatch-IsLedger now s r key no_healthy_backend l = l
  dispatch-IsLedger now s r key panic l = l

module _ {S R F : Type 0} (store : Store S) (g : Rng R) (sha256 : Text → List ℕ) where
  open_chat-IsLedger :
      (now : ℕ) (s : Server S R F) (method : Method) (body : Option (ChatCompletionRequest F))
      → IsLedger s.metrics
      → IsLedger (open_chat store g sha256 now s method body).0.metrics
  unfolding open_chat accept inc_requests_total
  open_chat-IsLedger now s post none l = l
  open_chat-IsLedger now s post (some r) l = elim (Option-cases (validate_chat_request r)) [
    | inl e ↦
        rw (e, open_chat)
          (dispatch-IsLedger now _ r _ _
            (record { selections = l.selections; hits_and_misses = l.hits_and_misses }))
    | inr (error, e) ↦ rw (e, open_chat) l
  ]
  open_chat-IsLedger now s get body l = l
  open_chat-IsLedger now s put body l = l
  open_chat-IsLedger now s options body l = l
  open_chat-IsLedger now s other body l = l

module _ {S R F : Type 0} (store : Store S) where
  settle_chat-IsLedger :
      (now : ℕ) (s : Server S R F) (p : Pending F) (answer : Option ChatCompletionResponse)
      → IsLedger s.metrics
      → IsLedger (settle_chat store now s p answer).0.metrics
  unfolding settle_chat record_affinity inc_backend_errors
  settle_chat-IsLedger now s p none l = record {
    selections = l.selections;
    hits_and_misses = l.hits_and_misses;
  }
  settle_chat-IsLedger now s p (some response) l =
      elim (Bool-cases
        (is_empty p.cache_key || is_empty (s.heap.backend p.decision.backend).name)) [
          | inl e ↦ rw e l
          | inr e ↦ rw e l
        ]

  close_chat-IsLedger :
      (float : Float64 F) (now : ℕ) (s : Server S R F) (p : Pending F)
      (answer : Option ChatCompletionResponse)
      → IsLedger s.metrics
      → IsLedger (close_chat store float now s p answer).0.metrics
  unfolding close_chat run_defers dec_in_flight
  close_chat-IsLedger float now s p answer l =
      let name = (s.heap.backend p.decision.backend).name in
      let ms = float.of_int64 ((now - p.started) / 1000000) in
      let settled =
        settle_chat-IsLedger now (record s { metrics = record_latency float name ms s.metrics }) p
          answer (record_latency-IsLedger float name ms s.metrics l) in
      record { selections = settled.selections; hits_and_misses = settled.hits_and_misses }

pub set_strategy-metrics :
    {S R F : Type 0} (g : Rng R) (lower : ℕ → ℕ) (raw : Text) (s : Server S R F)
    → (set_strategy g lower raw s).0.metrics ≡ s.metrics
unfolding set_strategy
set_strategy-metrics g lower raw s = go (normalize_strategy_name lower raw)
  where
    installed :
        (name : Text) (o : Option (Heap × Strategy _)) → (install s name o).0.metrics ≡ s.metrics
    installed name none = refl
    installed name (some (h, active)) = refl

    go : (n : NameResult) → (adopt g s n).0.metrics ≡ s.metrics
    go (named name) = installed name (make_strategy g name s.cfg.backends s.heap)
    go (refused e) = refl

module _ {S R F : Type 0} (store : Store S) (g : Rng R) (float : Float64 F) (lower : ℕ → ℕ)
    (sha256 : Text → List ℕ) where
  Step-IsLedger :
      {w v : System S R F}
      → Step store g float lower sha256 w v
      → IsLedger w.server.metrics
      → IsLedger v.server.metrics
  Step-IsLedger {w} (opens now method body) l =
      open_chat-IsLedger store g sha256 now w.server method body l
  Step-IsLedger {w} (closes now answer before after p e) l =
      close_chat-IsLedger store float now w.server p answer l
  Step-IsLedger {w} (switches raw) l = rw (set_strategy-metrics g lower raw w.server) l
  Step-IsLedger {w} (probes b answer) l = l

  -- In every state that the server reaches from its start, the counts by strategy sum up to the sum of
  -- the counts by backend, and the hits and misses of `kv_aware` to its count among the strategies.
  pub Reach-IsLedger :
      (cfg : Config) (st : S) (h : Heap) {w : System S R F}
      → Reach store g float lower sha256 (initial cfg st h) w
      → IsLedger w.server.metrics
  Reach-IsLedger cfg st h here =
      unfold new_server new_metrics total count_of lookup add64 in
      record { selections = refl; hits_and_misses = refl }
  Reach-IsLedger cfg st h (next r s) = Step-IsLedger s (Reach-IsLedger cfg st h r)
