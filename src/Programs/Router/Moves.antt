-- ===== src/Programs/Router/Moves.antt =====
-- The router from its start on: a prompt whose backend fails moves to another, and stays there.
use infer_flow.Prelude.{
  ℕ, nat_eq, ◌+◌, ◌≤◌, ◌<◌, ◌≡◌, ◌≢◌, refl, ap, ◌∙◌, Bool, true, false, ◌==◌, if◌then◌else◌, List,
  ◌∷◌, ◌++◌, Mem, Option, none, some, arith, length,
}
use infer_flow.Text.{Text}
use infer_flow.Int64.{two63}
use infer_flow.Cache.Store.{Store, StoreLaws}
use infer_flow.Metrics.{Float64}
use infer_flow.Proxy.{ChatCompletionRequest, ChatCompletionResponse}
use infer_flow.Router.Heap.{is_healthy}
use infer_flow.Router.Slots.{max_backends}
use infer_flow.Router.Decision.{SelectionInput, Outcome, ok, no_healthy_backend, panic, Decision}
use infer_flow.Router.Random.{Rng}
use infer_flow.Router.Loads.{Loads}
use infer_flow.Router.Serves.{any_healthy-here}
use infer_flow.Router.Strategy.{Strategy, kv_aware, backends_of}
use infer_flow.Router.Strategy
use infer_flow.Router.Strategy.Serves.{has_healthy_backend-any_healthy}
use infer_flow.Router.KvAware
use infer_flow.Server.Config.{Affinity, Loaded, loaded, load_config_from_env}
use infer_flow.Server.Request.{validate_chat_request}
use infer_flow.Server.State.{Server}
use infer_flow.Server.Chat.{
  post, Pending, dispatched, dispatch, accept, open_chat, close_chat, settle_chat, run_defers,
}
use infer_flow.Server.Affinity.{open_chat-accept}
use infer_flow.Server.Failover.{pending_of, asked, open_chat-Answers, healthy_after, still_healthy}
use infer_flow.Server.Handle.Parts.{SameHealth, open_chat-SameHealth}
use infer_flow.Server.System.{System, Reach, here, next, closed, closes}
use infer_flow.Server.System.Equipped.{turns, IsEquipped-IsReady}
use infer_flow.Server.System.Service.{Reach-IsServing}
use infer_flow.Programs.Router.{memory_of, config_of, boot}
use infer_flow.Programs.Router.Sticky.{length-addresses, start-sticky}

SameHealth-is_healthy :
    {S R F : Type 0} (s s' : Server S R F) (k : ℕ)
    → SameHealth s s'
    → is_healthy s'.heap k ≡ is_healthy s.heap k
unfolding is_healthy
SameHealth-is_healthy s s' k same = ap (λ f. (f k).healthy) same.backends

module _ {S R F : Type 0} (store : Store S) (g : Rng R) (sha256 : Text → List ℕ) where
  dispatch-strategy :
      (now : ℕ) (s : Server S R F) (r : ChatCompletionRequest F) (key : Text) (o : Outcome Decision)
      → let s' = (dispatch now s r key o).0 in (s'.strategy ≡ s.strategy) × (s'.cfg ≡ s.cfg)
  unfolding dispatch
  dispatch-strategy now s r key (ok d) = (refl, refl)
  dispatch-strategy now s r key no_healthy_backend = (refl, refl)
  dispatch-strategy now s r key panic = (refl, refl)

  select-kv_aware :
      (now : ℕ) (s : Server S R F) (l : Loads) (input : SelectionInput)
      → s.strategy ≡ kv_aware l
      → (Strategy.select store g now s.heap (some s.cache_store) s.strategy input).strategy
        ≡ kv_aware (KvAware.select store now s.heap (some s.cache_store) l input).1.1
  unfolding Strategy.select
  select-kv_aware now s l input kv = rw kv refl

  -- A request changes no configuration, and does not switch the strategy.
  open_chat-kv_aware :
      (now : ℕ) (s : Server S R F) (r : ChatCompletionRequest F) (l : Loads)
      → validate_chat_request r ≡ none
      → s.strategy ≡ kv_aware l
      → let s' = (open_chat store g sha256 now s post (some r)).0 in
        (l' : Loads) × (s'.strategy ≡ kv_aware l') × (s'.cfg ≡ s.cfg)
  unfolding accept
  open_chat-kv_aware now s r l valid kv = (
    _,
    ap (λ o. o.0.strategy) (open_chat-accept store g sha256 now s r valid)
        ∙ (dispatch-strategy now _ r _ _).0
        ∙ select-kv_aware now s l (asked sha256 r) kv,
    ap (λ o. o.0.cfg) (open_chat-accept store g sha256 now s r valid)
        ∙ (dispatch-strategy now _ r _ _).1,
  )

module _ {S R F : Type 0} (store : Store S) (float : Float64 F) where
  -- What a failed request leaves.
  record HasFailed (p : Pending F) (s s' : Server S R F) : Type 0 where
    strategy : s'.strategy ≡ s.strategy
    cfg : s'.cfg ≡ s.cfg
    health :
        (k : ℕ)
        → is_healthy s'.heap k ≡ (if p.decision.backend == k then false else is_healthy s.heap k)
    still :
        (k : ℕ)
        → is_healthy s'.heap k ≡ true
        → (k ≢ p.decision.backend) × (is_healthy s.heap k ≡ true)

  close_chat-HasFailed :
      (now : ℕ) (s : Server S R F) (p : Pending F)
      → HasFailed p s (close_chat store float now s p none).0
  unfolding close_chat settle_chat run_defers
  close_chat-HasFailed now s p = record {
    strategy = refl;
    cfg = refl;
    health = healthy_after s.heap p.decision;
    still = still_healthy s.heap p.decision;
  }

module _ (env : Text → Text) (parses : Text → Bool) (duration : Text → Option ℕ) (l : Loaded)
    (load : load_config_from_env env parses duration ≡ loaded l) {S R F : Type 0} (store : Store S)
    {lasts : ℕ → ℕ} (laws : StoreLaws lasts store) (g : Rng R) (float : Float64 F) (lower : ℕ → ℕ)
    (sha256 : Text → List ℕ) (connect : Affinity → S) where
  -- A router that is started from an environment that loads, with at most 2 ^ 62 backends, on a store
  -- that keeps the contract and takes every name: say a request waits for its backend, in a reachable
  -- state in which `kv_aware` is active with its counter of turns below 2 ^ 63, and another backend of
  -- the configuration is healthy. If the backend fails, a valid request that comes next is sent to a
  -- backend that was healthy and is not the one that failed; and if that answers, the same request that
  -- comes after it, before the time is over for which the store keeps the name, is sent to the new
  -- backend, as a cache hit.
  pub start-moves :
      {w : System S R F} (failed again answered later b : ℕ) (r : ChatCompletionRequest F)
      (p : Pending F) (before after : List (Pending F)) (response : ChatCompletionResponse)
      (loads : Loads)
      → length l.backends ≤ max_backends
      → Reach store g float lower sha256 (boot connect l) w
      → w.active ≡ before ++ p ∷ after
      → w.server.strategy ≡ kv_aware loads
      → turns w.server.strategy < two63
      → validate_chat_request r ≡ none
      → Mem b (config_of l).backends
      → is_healthy w.server.heap b ≡ true
      → b ≢ p.decision.backend
      → ((key name : Text) (ttl : ℕ) (st : S)
          → (store.remember_backend answered key name ttl st).1 ≡ true)
      → later < answered + lasts w.server.cfg.cache_ttl
      → let s = (close_chat store float failed w.server p none).0 in
        (q : Pending F) × ((open_chat store g sha256 again s post (some r)).1 ≡ dispatched q)
        × (q.decision.backend ≢ p.decision.backend)
        × (is_healthy w.server.heap q.decision.backend ≡ true)
        × (let s' = (open_chat store g sha256 again s post (some r)).0 in
            let s'' = (close_chat store float answered s' q (some response)).0 in
            (t : Pending F) × ((open_chat store g sha256 later s'' post (some r)).1 ≡ dispatched t)
            × (t.decision.backend ≡ q.decision.backend)
            × (t.decision.cache_hit ≡ true))
  start-moves {w} failed again answered later b r p before after response loads fits run waits kv
        low valid member healthy other takes lt =
      let cfg = config_of l in
      let s = (close_chat store float failed w.server p none).0 in
      let over = close_chat-HasFailed store float failed w.server p in
      let failed_run : Reach store g float lower sha256 (boot connect l)
          (closed store float failed none p (before ++ after) w) =
        next run (closes failed none before after p waits) in
      let serving =
        Reach-IsServing store g float lower sha256 cfg (connect l.affinity_store)
          (memory_of l.backends) failed_run in
      let low' : turns s.strategy < two63 = rw (over.strategy) low in
      let ready =
        IsEquipped-IsReady cfg.backends s.strategy
          (rw (length-addresses (length l.backends) 0) fits) low' serving.equipped in
      let up : is_healthy s.heap b ≡ true = over.health b ∙ ground (arith, healthy, other) in
      let (d, sent, found_in, alive) = open_chat-Answers store g sha256 again s r valid ready (
        has_healthy_backend-any_healthy s.heap s.strategy
        ∙ any_healthy-here s.heap (backends_of s.strategy) b (rw serving.equipped.backends member)
            up) in
      let (differs, was) = over.still d.backend alive in
      let (l', kv', same_cfg) =
        open_chat-kv_aware store g sha256 again s r loads valid (over.strategy ∙ kv) in
      let same = open_chat-SameHealth store g sha256 again s r valid in
      (
        pending_of sha256 again s r d,
        sent,
        differs,
        was,
        start-sticky env parses duration l load store laws g float lower sha256 connect again
            answered later r (pending_of sha256 again s r d) response l' fits failed_run low' sent
            here kv' (SameHealth-is_healthy s _ d.backend same ∙ alive) (takes _ _ _ _)
            (rw (same_cfg, over.cfg) lt),
      )
