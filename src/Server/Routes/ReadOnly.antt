-- ===== src/Server/Routes/ReadOnly.antt =====
-- Requests that only read.
use infer_flow.Prelude.{ℕ, ◌≡◌, refl, inl, inr, List, Option, Bool-cases, Option-cases, arith}
use infer_flow.Text.{Text}
use infer_flow.Cache.Store.{Store}
use infer_flow.Metrics.{Float64}
use infer_flow.Proxy.{ChatCompletionRequest}
use infer_flow.Router.Random.{Rng}
use infer_flow.Server.State.{Server}
use infer_flow.Server.Chat.{Method, get, post, put, options, other, open_chat}
use infer_flow.Server.Handlers.{handle_strategy}
use infer_flow.Server.Routes.{HttpRequest, handlers, route, allowed, is_options, cors_middleware}

-- The methods with which a request can change the server.
abbrev pub MayWrite : Method → Type 0
MayWrite get = ⊥
MayWrite post = Unit {0}
MayWrite put = Unit {0}
MayWrite options = ⊥
MayWrite other = ⊥

module _ {S R F : Type 0} (store : Store S) (g : Rng R) (float : Float64 F) (lower : ℕ → ℕ)
    (sha256 : Text → List ℕ) (quote : Text → Text) where
  strategy_kept :
      (s : Server S R F) (m : Method) (body : Option Text)
      → ¬ MayWrite m
      → (handle_strategy g lower s m body).0 ≡ s
  unfolding handle_strategy
  strategy_kept s get body n = refl
  strategy_kept s post body n = refl
  strategy_kept s put body n = absurd (n tt)
  strategy_kept s options body n = refl
  strategy_kept s other body n = refl

  chat_kept :
      (now : ℕ) (s : Server S R F) (m : Method) (body : Option (ChatCompletionRequest F))
      → ¬ MayWrite m
      → (open_chat store g sha256 now s m body).0 ≡ s
  unfolding open_chat
  chat_kept now s get body n = refl
  chat_kept now s post body n = absurd (n tt)
  chat_kept now s put body n = refl
  chat_kept now s options body n = refl
  chat_kept now s other body n = refl

  handlers_kept :
      (now : ℕ) (s : Server S R F) (r : HttpRequest F)
      → ¬ MayWrite r.method
      → (handlers store g float lower sha256 quote now s r).0 ≡ s
  unfolding handlers
  handlers_kept now s r n =
      ground
        (arith, strategy_kept s r.method r.strategy_body n, chat_kept now s r.method r.chat_body n)

  route_kept :
      (clean : Method → Text → Option Text) (now : ℕ) (s : Server S R F) (r : HttpRequest F)
      → ¬ MayWrite r.method
      → (route store g float lower sha256 quote clean now s r).0 ≡ s
  unfolding route
  route_kept clean now s r n = elim (Option-cases (clean r.method r.path)) [
    | inl e ↦ rw (e, route) (handlers_kept now s r n)
    | inr (path, e) ↦ rw (e, route) refl
  ]

  -- A request with another method than POST and PUT leaves the server as it is, on every path; its
  -- answer has the headers that let a page of another origin read it.
  pub cors_middleware-route :
      (clean : Method → Text → Option Text) (now : ℕ) (s : Server S R F) (r : HttpRequest F)
      → ¬ MayWrite r.method
      → let (s', a) =
          cors_middleware (λ w q. route store g float lower sha256 quote clean now w q) s r in
        (s' ≡ s) × (a.cors_headers ≡ allowed)
  unfolding cors_middleware
  cors_middleware-route clean now s r n = elim (Bool-cases (is_options r.method)) [
    | inl e ↦ rw e (refl, refl)
    | inr e ↦ rw e (route_kept clean now s r n, refl)
  ]
