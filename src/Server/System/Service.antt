-- ===== src/Server/System/Service.antt =====
-- What a client gets from the running server, and what `/readyz` says about it.
use mathlib.Core.Path.{subst}
use infer_flow.Prelude.{
  ℕ, ◌≤◌, ◌<◌, ◌≡◌, refl, sym, inl, inr, Mem, Bool, true, false, ◌||◌, List, Option, none, some,
  length, Bool-cases, Option-cases,
}
use infer_flow.Text.{Text, codes, is_empty}
use infer_flow.Int64.{two63}
use infer_flow.Cache.Store.{Store}
use infer_flow.Metrics.{Float64}
use infer_flow.Proxy.{ChatCompletionRequest, ChatCompletionResponse}
use infer_flow.Router.Heap.{Heap, is_healthy}
use infer_flow.Router.Slots.{max_backends}
use infer_flow.Router.Decision.{SelectionInput, Outcome, ok, no_healthy_backend, panic, Decision}
use infer_flow.Router.Random.{Rng}
use infer_flow.Router.RoundRobin.{new_round_robin}
use infer_flow.Router.Strategy.{Strategy, has_healthy_backend, select}
use infer_flow.Router.Strategy.Serves.{Answers, has_healthy_backend-select}
use infer_flow.Server.Names.{NameResult, named, refused, normalize_strategy_name}
use infer_flow.Server.Request.{validate_chat_request, estimate_request_cost, build_cache_key}
use infer_flow.Server.State.{
  Server, Config, new_server, set_strategy, adopt, install, make_strategy,
}
use infer_flow.Server.Handlers.{handle_readyz}
use infer_flow.Server.Chat.{
  Method, get, post, put, options, other, Pending, Opened, rejected, dispatched, fail, dispatch,
  accept, open_chat, close_chat, run_defers, settle_chat, record_affinity,
}
use infer_flow.Server.System.{
  System, Step, opens, closes, switches, probes, Reach, here, next, initial,
}
use infer_flow.Server.System.Equipped.{
  turns, IsEquipped, IsEquipped-IsReady, select-IsEquipped, AllEquipped, make_strategy-IsEquipped,
}

-- The configuration is the one of the start, and the strategy is made for its backends.
pub record IsServing {S R F : Type 0} (bs : List ℕ) (s : Server S R F) : Type 0 where
  pub configured : s.cfg.backends ≡ bs
  pub equipped : IsEquipped bs s.strategy

module _ {S R F : Type 0} (bs : List ℕ) where
  dispatch-IsServing :
      (now : ℕ) (s : Server S R F) (r : ChatCompletionRequest F) (key : Text) (o : Outcome Decision)
      → IsServing bs s
      → IsServing bs (dispatch now s r key o).0
  unfolding dispatch
  dispatch-IsServing now s r key (ok d) v = record {
    configured = v.configured;
    equipped = v.equipped;
  }
  dispatch-IsServing now s r key no_healthy_backend v = v
  dispatch-IsServing now s r key panic v = v

  open_chat-IsServing :
      (store : Store S) (g : Rng R) (sha256 : Text → List ℕ) (now : ℕ) (s : Server S R F)
      (method : Method) (body : Option (ChatCompletionRequest F))
      → IsServing bs s
      → IsServing bs (open_chat store g sha256 now s method body).0
  unfolding open_chat accept
  open_chat-IsServing store g sha256 now s post none v = v
  open_chat-IsServing store g sha256 now s post (some r) v =
      elim (Option-cases (validate_chat_request r)) [
        | inl e ↦
            rw (e, open_chat)
              (dispatch-IsServing now _ r _ _ (record {
                configured = v.configured;
                equipped =
                    select-IsEquipped store g now s.heap (some s.cache_store) bs s.strategy _
                      v.equipped;
              }))
        | inr (error, e) ↦ rw (e, open_chat) v
      ]
  open_chat-IsServing store g sha256 now s get body v = v
  open_chat-IsServing store g sha256 now s put body v = v
  open_chat-IsServing store g sha256 now s options body v = v
  open_chat-IsServing store g sha256 now s other body v = v

  close_chat-IsServing :
      (store : Store S) (float : Float64 F) (now : ℕ) (s : Server S R F) (p : Pending F)
      (answer : Option ChatCompletionResponse)
      → IsServing bs s
      → IsServing bs (close_chat store float now s p answer).0
  unfolding close_chat run_defers settle_chat record_affinity
  close_chat-IsServing store float now s p none v = record {
    configured = v.configured;
    equipped = v.equipped;
  }
  close_chat-IsServing store float now s p (some response) v =
      elim (Bool-cases
        (is_empty p.cache_key || is_empty (s.heap.backend p.decision.backend).name)) [
          | inl e ↦ rw e (record { configured = v.configured; equipped = v.equipped })
          | inr e ↦ rw e (record { configured = v.configured; equipped = v.equipped })
        ]

  set_strategy-IsServing :
      (g : Rng R) (lower : ℕ → ℕ) (raw : Text) (s : Server S R F)
      → IsServing bs s
      → IsServing bs (set_strategy g lower raw s).0
  unfolding set_strategy
  set_strategy-IsServing g lower raw s v = go (normalize_strategy_name lower raw)
    where
      put_in :
          (name : Text) (o : Option (Heap × Strategy R))
          → AllEquipped bs o
          → IsServing bs (install s name o).0
      put_in name none q = v
      put_in name (some (h, t)) q = record { configured = v.configured; equipped = q }

      go : (n : NameResult) → IsServing bs (adopt g s n).0
      go (named name) = put_in name _ (
          subst (λ cs. AllEquipped bs (make_strategy g name cs s.heap)) (sym v.configured)
            (make_strategy-IsEquipped g name bs s.heap))
      go (refused e) = v

-- What a valid request gets: it goes to a healthy backend of the list, and `/readyz` answers 200; or it
-- is turned away with status 503, and so does `/readyz`.
abbrev pub Served : {S R F : Type 0} → List ℕ → Server S R F → Bool → Opened F → Type 0
Served bs s true o =
    ((handle_readyz s).status ≡ 200)
    × ((p : Pending _) × ((o ≡ dispatched p)
          × Mem p.decision.backend bs
          × (is_healthy s.heap p.decision.backend ≡ true)))
Served bs s false o =
    ((handle_readyz s).status ≡ 503)
    × (o ≡ rejected (fail 503 (codes "no healthy backend available")))

module _ {S R F : Type 0} (store : Store S) (g : Rng R) (float : Float64 F) (lower : ℕ → ℕ)
    (sha256 : Text → List ℕ) where
  Step-IsServing :
      (bs : List ℕ) {w v : System S R F}
      → Step store g float lower sha256 w v
      → IsServing bs w.server
      → IsServing bs v.server
  Step-IsServing bs {w} (opens now method body) v =
      open_chat-IsServing bs store g sha256 now w.server method body v
  Step-IsServing bs {w} (closes now answer before after p e) v =
      close_chat-IsServing bs store float now w.server p answer v
  Step-IsServing bs {w} (switches raw) v = set_strategy-IsServing bs g lower raw w.server v
  Step-IsServing bs {w} (probes b answer) v = record {
    configured = v.configured;
    equipped = v.equipped;
  }

  pub Reach-IsServing :
      (cfg : Config) (st : S) (h : Heap) {w : System S R F}
      → Reach store g float lower sha256 (initial cfg st h) w
      → IsServing cfg.backends w.server
  unfolding new_server new_round_robin
  Reach-IsServing cfg st h here = record {
    configured = refl;
    equipped = record { backends = refl; covered = tt };
  }
  Reach-IsServing cfg st h (next r s) = Step-IsServing cfg.backends s (Reach-IsServing cfg st h r)

  accept-Served :
      (bs : List ℕ) (now : ℕ) (s s' : Server S R F) (r : ChatCompletionRequest F) (key : Text)
      (v : Bool) (o : Outcome Decision)
      → has_healthy_backend s.heap s.strategy ≡ v
      → Answers s.heap bs v o
      → Served bs s v (dispatch now s' r key o).1
  unfolding dispatch handle_readyz
  accept-Served bs now s s' r key true o ready (d, e, member, well) =
      let p : Pending F = record {
        request = r;
        decision = d;
        strategy_name = s'.strategy_name;
        cache_key = key;
        started = now;
      } in
      (rw ready refl, (p, (rw (e, dispatch) refl, member, well)))
  accept-Served bs now s s' r key false o ready e = (rw ready refl, rw (e, dispatch) refl)

  -- In every state that the server reaches, with at most 2 ^ 62 backends and a strategy whose counter of
  -- turns is below 2 ^ 63: a valid request is sent to a healthy backend of the configuration while
  -- `/readyz` answers 200, and is turned away with status 503 while `/readyz` answers 503; no panic.
  pub Reach-Served :
      (cfg : Config) (st : S) (h : Heap) {w : System S R F} (now : ℕ) (r : ChatCompletionRequest F)
      → Reach store g float lower sha256 (initial cfg st h) w
      → length cfg.backends ≤ max_backends
      → turns w.server.strategy < two63
      → validate_chat_request r ≡ none
      → Served cfg.backends w.server
          (has_healthy_backend w.server.heap w.server.strategy)
          (open_chat store g sha256 now w.server post (some r)).1
  unfolding open_chat accept
  Reach-Served cfg st h {w} now r run fits low valid =
      let s = w.server in
      let ready = has_healthy_backend s.heap s.strategy in
      let serving = Reach-IsServing cfg st h run in
      let input : SelectionInput = record {
        estimated_cost = estimate_request_cost r.messages;
        cache_key = build_cache_key sha256 r.model r.messages;
      } in
      let selected = select store g now s.heap (some s.cache_store) s.strategy input in
      rw (valid, open_chat)
        (accept-Served cfg.backends now s _ r _ ready selected.decision refl (
          subst (λ bs. Answers s.heap bs ready selected.decision) serving.equipped.backends
            (has_healthy_backend-select store g now s.heap (some s.cache_store) s.strategy input
              (IsEquipped-IsReady cfg.backends s.strategy fits low serving.equipped))))
