-- ===== src/Server/System/Named.antt =====
-- The name that the server shows for its strategy is that of the strategy.
use infer_flow.Prelude.{
  ℕ, ◌≡◌, refl, sym, ◌∙◌, inl, inr, ◌||◌, List, Option, none, some, Bool-cases, Option-cases,
}
use infer_flow.Text.{Text, is_empty}
use infer_flow.Cache.Store.{Store}
use infer_flow.Metrics.{Float64}
use infer_flow.Proxy.{ChatCompletionRequest, ChatCompletionResponse}
use infer_flow.Router.Heap.{Heap}
use infer_flow.Router.Decision.{SelectionInput, Outcome, ok, no_healthy_backend, panic, Decision}
use infer_flow.Router.Random.{Rng}
use infer_flow.Router.Strategy.{
  Strategy, round_robin, least_pending, random, kv_aware, cost_aware, name_of,
}
use infer_flow.Router.Strategy
use infer_flow.Server.Names.{
  NameResult, named, refused, normalize_strategy_name, normalize_strategy_name-IsOffered,
}
use infer_flow.Server.Request.{validate_chat_request}
use infer_flow.Server.State.{Server, Config, new_server, set_strategy, adopt, make_strategy}
use infer_flow.Server.Chat.{
  Method, get, post, put, options, other, Pending, dispatch, accept, open_chat, close_chat,
  run_defers, settle_chat, record_affinity,
}
use infer_flow.Server.Switch.{make_strategy-AllNew, install-IsSwitched}
use infer_flow.Server.System.{
  System, Step, opens, closes, switches, probes, Reach, here, next, initial,
}
use infer_flow.Server.System.Equipped.{make_strategy-IsEquipped}

abbrev pub IsNamed : {S R F : Type 0} → Server S R F → Type 0
IsNamed s = s.strategy_name ≡ name_of s.strategy

select-name_of :
    {S R : Type 0} (store : Store S) (g : Rng R) (now : ℕ) (h : Heap) (st : Option S)
    (s : Strategy R) (input : SelectionInput)
    → name_of (Strategy.select store g now h st s input).strategy ≡ name_of s
unfolding Strategy.select name_of
select-name_of store g now h st (round_robin s) input = refl
select-name_of store g now h st (least_pending s) input = refl
select-name_of store g now h st (random s) input = refl
select-name_of store g now h st (kv_aware s) input = refl
select-name_of store g now h st (cost_aware s) input = refl

module _ {S R F : Type 0} where
  dispatch-IsNamed :
      (now : ℕ) (s : Server S R F) (r : ChatCompletionRequest F) (key : Text) (o : Outcome Decision)
      → IsNamed s
      → IsNamed (dispatch now s r key o).0
  unfolding dispatch
  dispatch-IsNamed now s r key (ok d) v = v
  dispatch-IsNamed now s r key no_healthy_backend v = v
  dispatch-IsNamed now s r key panic v = v

  open_chat-IsNamed :
      (store : Store S) (g : Rng R) (sha256 : Text → List ℕ) (now : ℕ) (s : Server S R F)
      (method : Method) (body : Option (ChatCompletionRequest F))
      → IsNamed s
      → IsNamed (open_chat store g sha256 now s method body).0
  unfolding open_chat accept
  open_chat-IsNamed store g sha256 now s post none v = v
  open_chat-IsNamed store g sha256 now s post (some r) v =
      elim (Option-cases (validate_chat_request r)) [
        | inl e ↦
            rw (e, open_chat)
              (dispatch-IsNamed now _ r _ _
                (v ∙ sym (select-name_of store g now s.heap (some s.cache_store) s.strategy _)))
        | inr (error, e) ↦ rw (e, open_chat) v
      ]
  open_chat-IsNamed store g sha256 now s get body v = v
  open_chat-IsNamed store g sha256 now s put body v = v
  open_chat-IsNamed store g sha256 now s options body v = v
  open_chat-IsNamed store g sha256 now s other body v = v

  close_chat-IsNamed :
      (store : Store S) (float : Float64 F) (now : ℕ) (s : Server S R F) (p : Pending F)
      (answer : Option ChatCompletionResponse)
      → IsNamed s
      → IsNamed (close_chat store float now s p answer).0
  unfolding close_chat run_defers settle_chat record_affinity
  close_chat-IsNamed store float now s p none v = v
  close_chat-IsNamed store float now s p (some response) v =
      elim (Bool-cases
        (is_empty p.cache_key || is_empty (s.heap.backend p.decision.backend).name)) [
          | inl e ↦ rw e v
          | inr e ↦ rw e v
        ]

  set_strategy-IsNamed :
      (g : Rng R) (lower : ℕ → ℕ) (raw : Text) (s : Server S R F)
      → IsNamed s
      → IsNamed (set_strategy g lower raw s).0
  unfolding set_strategy
  set_strategy-IsNamed g lower raw s v = go (normalize_strategy_name lower raw) refl
    where
      go : (n : NameResult) → normalize_strategy_name lower raw ≡ n → IsNamed (adopt g s n).0
      go (refused e) same = v
      go (named name) same =
          let (switched, answer) =
            install-IsSwitched g lower s name (make_strategy g name s.cfg.backends s.heap)
              (make_strategy-AllNew g name s.cfg.backends s.heap
                (normalize_strategy_name-IsOffered lower raw same))
              (make_strategy-IsEquipped g name s.cfg.backends s.heap) in
          switched.active ∙ sym switched.named_so

module _ {S R F : Type 0} (store : Store S) (g : Rng R) (float : Float64 F) (lower : ℕ → ℕ)
    (sha256 : Text → List ℕ) where
  Step-IsNamed :
      {w v : System S R F}
      → Step store g float lower sha256 w v
      → IsNamed w.server
      → IsNamed v.server
  Step-IsNamed {w} (opens now method body) v =
      open_chat-IsNamed store g sha256 now w.server method body v
  Step-IsNamed {w} (closes now answer before after p e) v =
      close_chat-IsNamed store float now w.server p answer v
  Step-IsNamed {w} (switches raw) v = set_strategy-IsNamed g lower raw w.server v
  Step-IsNamed {w} (probes b answer) v = v

  pub Reach-IsNamed :
      (cfg : Config) (st : S) (h : Heap) {w : System S R F}
      → Reach store g float lower sha256 (initial cfg st h) w
      → IsNamed w.server
  unfolding new_server
  Reach-IsNamed cfg st h here = refl
  Reach-IsNamed cfg st h (next r s) = Step-IsNamed s (Reach-IsNamed cfg st h r)
