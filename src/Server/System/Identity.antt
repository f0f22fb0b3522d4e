-- ===== src/Server/System/Identity.antt =====
-- Nothing that the running server does changes the name of a backend: only health and counters move.
use infer_flow.Prelude.{
  ℕ, nat_eq, ◌≡◌, refl, ap, ◌∙◌, inl, inr, false, ◌||◌, List, Option, none, some, Bool-cases,
  Option-cases,
}
use infer_flow.Text.{Text, is_empty, text_beq}
use infer_flow.Cache.Store.{Store}
use infer_flow.Metrics.{Float64}
use infer_flow.Proxy.{ChatCompletionRequest, ChatCompletionResponse}
use infer_flow.Router.Heap.{Heap, set_healthy-name}
use infer_flow.Router.Decision.{Outcome, ok, no_healthy_backend, panic, Decision}
use infer_flow.Router.Random.{Rng}
use infer_flow.Router.Loads.{no_loads}
use infer_flow.Router.LeastPending
use infer_flow.Router.KvAware
use infer_flow.Router.Strategy.{
  Strategy, round_robin_name, least_pending_name, random_name, kv_aware_name,
}
use infer_flow.Router.Strategy.Backends.{select-backend, set_backends-backend}
use infer_flow.Server.Names.{NameResult, named, refused, normalize_strategy_name}
use infer_flow.Server.Request.{validate_chat_request}
use infer_flow.Server.State.{Server, set_strategy, adopt, install, make_strategy}
use infer_flow.Server.Chat.{
  Method, get, post, put, options, other, Pending, dispatch, accept, open_chat, close_chat,
  run_defers, settle_chat, record_affinity,
}
use infer_flow.Server.Affinity.{release-backend}
use infer_flow.Server.System.{System, Step, opens, closes, switches, probes, Reach, here, next}

abbrev KeepsNames : {R : Type 0} → Heap → Option (Heap × Strategy R) → Type 0
KeepsNames h none = Unit {0}
KeepsNames h (some (h', s)) = h'.backend ≡ h.backend

make_strategy-KeepsNames :
    {R : Type 0} (g : Rng R) (name : Text) (bs : List ℕ) (h : Heap)
    → KeepsNames h (make_strategy g name bs h)
unfolding make_strategy LeastPending.new_least_pending KvAware.new_kv_aware
make_strategy-KeepsNames g name bs h = elim (Bool-cases (text_beq name round_robin_name)) [
  | inl e ↦ rw e refl
  | inr e ↦ rw e (elim (Bool-cases (text_beq name least_pending_name)) [
    | inl e ↦ rw e (set_backends-backend bs h no_loads)
    | inr e ↦ rw e (elim (Bool-cases (text_beq name random_name)) [
      | inl e ↦ rw e refl
      | inr e ↦ rw e (elim (Bool-cases (text_beq name kv_aware_name)) [
        | inl e ↦ rw e (set_backends-backend bs h no_loads)
        | inr e ↦ rw e tt
      ])
    ])
  ])
]

-- The name of a backend.
abbrev pub name_at : {S R F : Type 0} → Server S R F → ℕ → Text
name_at s b = (s.heap.backend b).name

abbrev SameName : {S R F : Type 0} → Server S R F → Server S R F → Type 0
SameName s s' = (b : ℕ) → name_at s' b ≡ name_at s b

module _ {S R F : Type 0} where
  dispatch-heap :
      (now : ℕ) (s : Server S R F) (r : ChatCompletionRequest F) (key : Text) (o : Outcome Decision)
      → (dispatch now s r key o).0.heap ≡ s.heap
  unfolding dispatch
  dispatch-heap now s r key (ok d) = refl
  dispatch-heap now s r key no_healthy_backend = refl
  dispatch-heap now s r key panic = refl

  open_chat-SameName :
      (store : Store S) (g : Rng R) (sha256 : Text → List ℕ) (now : ℕ) (s : Server S R F)
      (method : Method) (body : Option (ChatCompletionRequest F))
      → SameName s (open_chat store g sha256 now s method body).0
  unfolding open_chat accept
  open_chat-SameName store g sha256 now s post none b = refl
  open_chat-SameName store g sha256 now s post (some r) b =
      elim (Option-cases (validate_chat_request r)) [
        | inl e ↦
            rw (e, open_chat)
              (ap (λ h. (h.backend b).name) (dispatch-heap now _ r _ _)
                ∙ ap (λ f. (f b).name)
                    (select-backend store g now s.heap (some s.cache_store) s.strategy _))
        | inr (error, e) ↦ rw (e, open_chat) refl
      ]
  open_chat-SameName store g sha256 now s get body b = refl
  open_chat-SameName store g sha256 now s put body b = refl
  open_chat-SameName store g sha256 now s options body b = refl
  open_chat-SameName store g sha256 now s other body b = refl

  close_chat-SameName :
      (store : Store S) (float : Float64 F) (now : ℕ) (s : Server S R F) (p : Pending F)
      (answer : Option ChatCompletionResponse)
      → SameName s (close_chat store float now s p answer).0
  unfolding close_chat run_defers settle_chat record_affinity
  close_chat-SameName store float now s p none b =
      ap (λ f. (f b).name) (release-backend p.decision _)
      ∙ set_healthy-name p.decision.backend false s.heap b
  close_chat-SameName store float now s p (some response) b =
      elim (Bool-cases
        (is_empty p.cache_key || is_empty (s.heap.backend p.decision.backend).name)) [
          | inl e ↦ rw e (ap (λ f. (f b).name) (release-backend p.decision s.heap))
          | inr e ↦ rw e (ap (λ f. (f b).name) (release-backend p.decision s.heap))
        ]

  set_strategy-SameName :
      (g : Rng R) (lower : ℕ → ℕ) (raw : Text) (s : Server S R F)
      → SameName s (set_strategy g lower raw s).0
  unfolding set_strategy
  set_strategy-SameName g lower raw s = go (normalize_strategy_name lower raw)
    where
      put_in :
          (name : Text) (o : Option (Heap × Strategy R))
          → KeepsNames s.heap o
          → SameName s (install s name o).0
      put_in name none k b = refl
      put_in name (some (h, t)) k b = ap (λ f. (f b).name) k

      go : (n : NameResult) → SameName s (adopt g s n).0
      go (named name) = put_in name _ (make_strategy-KeepsNames g name s.cfg.backends s.heap)
      go (refused e) = λ b. refl

module _ {S R F : Type 0} (store : Store S) (g : Rng R) (float : Float64 F) (lower : ℕ → ℕ)
    (sha256 : Text → List ℕ) where
  Step-name :
      {w v : System S R F} (b : ℕ)
      → Step store g float lower sha256 w v
      → name_at v.server b ≡ name_at w.server b
  Step-name {w} b (opens now method body) =
      open_chat-SameName store g sha256 now w.server method body b
  Step-name {w} b (closes now answer before after p e) =
      close_chat-SameName store float now w.server p answer b
  Step-name {w} b (switches raw) = set_strategy-SameName g lower raw w.server b
  Step-name {w} b (probes k answer) = set_healthy-name k _ w.server.heap b

  pub Reach-name :
      {w v : System S R F} (b : ℕ)
      → Reach store g float lower sha256 w v
      → name_at v.server b ≡ name_at w.server b
  Reach-name b here = refl
  Reach-name b (next r s) = Step-name b s ∙ Reach-name b r
