-- ===== src/Programs/Router/Adapted.antt =====
-- The router in front of adapters, each in front of a model server: from the client's request to the
-- generated text.
use mathlib.Core.Path.{subst}
use infer_flow.Prelude.{
  ℕ, ◌/◌, ◌≤◌, ◌<◌, ◌≡◌, refl, inl, inr, Bool, true, Bool-cases, List, Mem, none, some, length,
  ◌++◌,
}
use infer_flow.Text.{Text, codes}
use infer_flow.Int64.{two63}
use infer_flow.Cache.Store.{Store}
use infer_flow.Metrics.{Float64}
use infer_flow.Proxy.{
  ChatCompletionRequest, BackendRequest, Exchange, replied, backend_request, send_chat_completion,
  health_check,
}
use infer_flow.Proxy.Client.{Net, call_backend, check_backend}
use infer_flow.Router.Heap.{Heap, Backend, is_healthy}
use infer_flow.Router.Slots.{max_backends}
use infer_flow.Router.Random.{Rng}
use infer_flow.Server.Request.{validate_chat_request}
use infer_flow.Server.State.{Config}
use infer_flow.Server.Handlers.{handle_readyz}
use infer_flow.Server.Chat.{get, post}
use infer_flow.Server.Handle.{handle_chat_completions}
use infer_flow.Server.Handle.Outcomes.{Forwarded, Handled-Forwarded}
use infer_flow.Server.Handle.Running.{Reach-Handled}
use infer_flow.Server.System.{System, Reach, initial}
use infer_flow.Server.System.Equipped.{turns}
use infer_flow.Adapter.{
  Generator, Reply, refused, not_found, status_ok, answered, opts_of, handle_health, serve,
}
use infer_flow.Adapter.EndToEnd.{delivered, completed, send_chat_completion-handle_infer}

-- The reply to a health check.
abbrev pub checked : Reply → Exchange (Unit {0})
checked (refused status text) = replied status (some tt)
checked not_found = replied 404 (some tt)
checked status_ok = replied 200 (some tt)
checked (answered response) = replied 200 (some tt)

-- A network on which an adapter listens at each base URL.
pub record IsWired {F : Type 0} (net : Net F) (adapters : Text → Generator F) : Type 0 where
  pub healthz :
      (base : Text)
      → net.get (base ++ codes "/healthz")
        ≡ checked (serve (adapters base) (codes "/healthz") get none)
  pub infer :
      (base : Text) (b : BackendRequest F)
      → net.post (base ++ codes "/infer") b
        ≡ delivered (serve (adapters base) (codes "/infer") post (some b))

module _ {F : Type 0} (net : Net F) (adapters : Text → Generator F)
    (wired : IsWired net adapters) where
  -- A health check of the router is one of the model server.
  check_backend-health_check :
      (backend : Backend) → check_backend net backend ≡ (adapters backend.base_url).health_check
  unfolding check_backend health_check serve handle_health
  check_backend-health_check backend =
      rw (wired.healthz backend.base_url)
        (elim (Bool-cases (adapters backend.base_url).health_check) [
          | inl e ↦ rw e refl
          | inr e ↦ rw e refl
        ])

  call_backend-completed :
      (unix : ℕ) (backend : Backend) (r : ChatCompletionRequest F)
      → validate_chat_request r ≡ none
      → call_backend net unix backend r
        ≡ completed unix r ((adapters backend.base_url).generate (opts_of (backend_request r)))
  unfolding call_backend send_chat_completion serve
  call_backend-completed unix backend r valid =
      rw (wired.infer backend.base_url (backend_request r), call_backend, send_chat_completion)
        (send_chat_completion-handle_infer (adapters backend.base_url) unix r valid)

module _ {S R F : Type 0} (store : Store S) (g : Rng R) (float : Float64 F) (lower : ℕ → ℕ)
    (sha256 : Text → List ℕ) (net : Net F) (adapters : Text → Generator F)
    (wired : IsWired net adapters) where
  -- On a network where an adapter listens at each base URL, from a start with all counters at zero, with
  -- at most 2 ^ 62 backends, in any reachable state whose strategy has its counter of turns below
  -- 2 ^ 63: while `/readyz` answers 200, a valid request that nothing runs beside goes to a healthy
  -- backend of the configuration. If the model server behind its adapter generates a text for the
  -- messages, the client gets status 200 with the completion of the text, and no backend changes; if the
  -- generation fails, it gets status 502, and this backend and no other is marked as down.
  pub Reach-completed :
      (cfg : Config) (st : S) (h : Heap) {w : System S R F} (now later : ℕ)
      (r : ChatCompletionRequest F)
      → ((c : ℕ) → h.counter c ≡ 0)
      → Reach store g float lower sha256 (initial cfg st h) w
      → length cfg.backends ≤ max_backends
      → turns w.server.strategy < two63
      → validate_chat_request r ≡ none
      → (handle_readyz w.server).status ≡ 200
      → let (s', reply) =
          handle_chat_completions store g float sha256 net now later w.server post (some r) in
        (b : ℕ) × (hit : Bool) × Mem b cfg.backends
        × (is_healthy w.server.heap b ≡ true)
        × Forwarded w.server b hit s' reply (
            completed (later / 1000000000) r (
              (adapters (w.server.heap.backend b).base_url).generate (opts_of (backend_request r))))
  Reach-completed cfg st h {w} now later r zero run fits low valid ready =
      let (s', reply) =
        handle_chat_completions store g float sha256 net now later w.server post (some r) in
      let (handled, counters, gauge) =
        Reach-Handled store g float lower sha256 net cfg st h now later post (some r) zero run fits
          low in
      let (b, hit, member, healthy, f) =
        Handled-Forwarded net _ cfg.backends w.server s' r reply valid ready handled in
      (
        b,
        hit,
        member,
        healthy,
        subst (Forwarded w.server b hit s' reply)
            (call_backend-completed net adapters wired _ (w.server.heap.backend b) r valid) f,
      )
