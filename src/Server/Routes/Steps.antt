-- ===== src/Server/Routes/Steps.antt =====
-- Each request over HTTP is a step of the running server.
use infer_flow.Prelude.{
  ℕ, ◌≡◌, refl, ◌⊎◌, inl, inr, Bool, true, false, List, Option, none, some, if◌then◌else◌,
  Option-cases,
}
use infer_flow.Text.{Text, codes, text_beq}
use infer_flow.Cache.Store.{Store}
use infer_flow.Metrics.{Float64}
use infer_flow.Router.Random.{Rng}
use infer_flow.Server.State.{Server}
use infer_flow.Server.Chat.{Method, get, post, put, options, other}
use infer_flow.Server.Handlers.{handle_strategy}
use infer_flow.Server.Routes.{HttpRequest, handlers, route, is_options, cors_middleware}
use infer_flow.Server.System.{System, opened, switched, Step, opens, switches}

module _ {S R F : Type 0} (store : Store S) (g : Rng R) (float : Float64 F) (lower : ℕ → ℕ)
    (sha256 : Text → List ℕ) (quote : Text → Text) where
  -- The server is `s` already, or comes to it in one step of the running system.
  abbrev pub Moves : System S R F → Server S R F → Type 0
  Moves w s =
      (w.server ≡ s) ⊎ ((v : System S R F) × Step store g float lower sha256 w v × (v.server ≡ s))

  stays : (w : System S R F) → Moves w w.server
  stays w = inl refl

  if_Moves :
      {A : Type 0} (w : System S R F) (b : Bool) (x y : Server S R F × A)
      → Moves w x.0
      → Moves w y.0
      → Moves w (if b then x else y).0
  if_Moves w true x y p q = p
  if_Moves w false x y p q = q

  strategy-Moves :
      (w : System S R F) (m : Method) (body : Option Text)
      → Moves w (handle_strategy g lower w.server m body).0
  unfolding handle_strategy
  strategy-Moves w get body = stays w
  strategy-Moves w put none = stays w
  strategy-Moves w put (some raw) = inr (switched g lower raw w, switches raw, refl)
  strategy-Moves w post body = stays w
  strategy-Moves w options body = stays w
  strategy-Moves w other body = stays w

  handlers-Moves :
      (now : ℕ) (w : System S R F) (r : HttpRequest F)
      → Moves w (handlers store g float lower sha256 quote now w.server r).0
  unfolding handlers
  handlers-Moves now w r = if_Moves w (text_beq r.path (codes "/healthz")) _ _ (stays w) (
      if_Moves w (text_beq r.path (codes "/readyz")) _ _ (stays w) (
        if_Moves w (text_beq r.path (codes "/metrics")) _ _ (stays w) (
          if_Moves w (text_beq r.path (codes "/strategy")) _ _
            (strategy-Moves w r.method r.strategy_body)
            (if_Moves w (text_beq r.path (codes "/api/status")) _ _ (stays w) (
              if_Moves w (text_beq r.path (codes "/v1/chat/completions")) _ _
                (inr (
                  opened store g sha256 now r.method r.chat_body w,
                  opens now r.method r.chat_body,
                  refl,
                ))
                (stays w))))))

  route-Moves :
      (clean : Method → Text → Option Text) (now : ℕ) (w : System S R F) (r : HttpRequest F)
      → Moves w (route store g float lower sha256 quote clean now w.server r).0
  unfolding route
  route-Moves clean now w r = elim (Option-cases (clean r.method r.path)) [
    | inl e ↦ rw (e, route) (handlers-Moves now w r)
    | inr (path, e) ↦ rw (e, route) (stays w)
  ]

  -- Every request over HTTP, on any path and with any method and body, leaves the server as it is, or
  -- takes it to where one step of the running system takes it: what holds in every reachable state holds
  -- behind every request.
  pub cors_middleware-Moves :
      (clean : Method → Text → Option Text) (now : ℕ) (w : System S R F) (r : HttpRequest F)
      → Moves w
          (cors_middleware
            (λ s q. route store g float lower sha256 quote clean now s q)
            w.server
            r).0
  unfolding cors_middleware
  cors_middleware-Moves clean now w r =
      if_Moves w (is_options r.method) _ _ (stays w) (route-Moves clean now w r)
