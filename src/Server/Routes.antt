-- ===== src/Server/Routes.antt =====
-- internal/server/server.go: the routes of `New` and `corsMiddleware`. The multiplexer is the standard
-- library's: each path is registered without a trailing slash, and matches itself alone. `clean` is its
-- redirection, the other path to which it sends a request, as it does for one whose path is not clean.
pub mod ReadOnly
pub mod Steps
use infer_flow.Prelude.{ℕ, Bool, true, false, List, [], ◌∷◌, Option, none, some, if◌then◌else◌}
use infer_flow.Text.{Text, codes, text_beq}
use infer_flow.Cache.Store.{Store}
use infer_flow.Metrics.{Float64}
use infer_flow.Proxy.{ChatCompletionRequest}
use infer_flow.Router.Random.{Rng}
use infer_flow.Server.State.{Server}
use infer_flow.Server.Chat.{
  Method, get, post, put, options, other, Response, Pending, Opened, rejected, dispatched, aborted,
  fail, open_chat,
}
use infer_flow.Server.Handlers.{handle_healthz, handle_readyz, handle_strategy}
use infer_flow.Server.Status.{StatusReport, Written, handle_status, handle_metrics}

-- A request, with its body as each handler that reads one decodes it.
pub record HttpRequest (F : Type 0) : Type 0 where
  pub path : Text
  pub method : Method
  pub chat_body : Option (ChatCompletionRequest F)
  pub strategy_body : Option Text

-- What is written; `waits` is a chat that waits for its backend, `broken` a panic, and `moved` the status
-- 301 with another path.
pub data Content (F : Type 0) : Type 0 where
  plain : Response → Content F
  metrics_text : Written Text → Content F
  report : Written (StatusReport F) → Content F
  moved : Text → Content F
  waits : Pending F → Content F
  no_content : Content F
  not_found : Content F
  broken : Content F

pub record Answer (F : Type 0) : Type 0 where
  pub cors_headers : List (Text × Text)
  pub content : Content F

abbrev pub content_of : {F : Type 0} → Opened F → Content F
content_of (rejected r) = plain r
content_of (dispatched p) = waits p
content_of aborted = broken

abbrev pub content_of_status : {F : Type 0} → Option (Written (StatusReport F)) → Content F
content_of_status none = plain (fail 405 (codes "method not allowed"))
content_of_status (some r) = report r

module _ {S R F : Type 0} (store : Store S) (g : Rng R) (float : Float64 F) (lower : ℕ → ℕ)
    (sha256 : Text → List ℕ) (quote : Text → Text) where
  -- The handlers of `New`, by the path.
  unfoldable pub handlers : ℕ → Server S R F → HttpRequest F → Server S R F × Content F
  handlers now s r =
      if text_beq r.path (codes "/healthz")
      then (s, plain (handle_healthz s))
      else if text_beq r.path (codes "/readyz")
      then (s, plain (handle_readyz s))
      else if text_beq r.path (codes "/metrics")
      then (s, metrics_text (handle_metrics quote s))
      else if text_beq r.path (codes "/strategy")
      then (let (s', response) = handle_strategy g lower s r.method r.strategy_body in
          (s', plain response))
      else if text_beq r.path (codes "/api/status")
      then (s, content_of_status (handle_status float s r.method))
      else if text_beq r.path (codes "/v1/chat/completions")
      then (let (s', opened) = open_chat store g sha256 now s r.method r.chat_body in
          (s', content_of opened))
      else (s, not_found)

  -- The multiplexer of `New`.
  unfoldable pub route :
      (Method → Text → Option Text) → ℕ → Server S R F → HttpRequest F → Server S R F × Content F
  route clean now s r = elim (clean r.method r.path) [
    | some path ↦ (s, moved path)
    | none ↦ handlers now s r
  ]

abbrev pub allowed : List (Text × Text)
allowed =
    (codes "Access-Control-Allow-Origin", codes "*")
    ∷ (codes "Access-Control-Allow-Methods", codes "GET, POST, PUT, OPTIONS")
    ∷ (codes "Access-Control-Allow-Headers", codes "Content-Type")
    ∷ []

abbrev pub is_options : Method → Bool
is_options options = true
is_options get = false
is_options post = false
is_options put = false
is_options other = false

-- `corsMiddleware`.
unfoldable pub cors_middleware :
    {W F : Type 0} → (W → HttpRequest F → W × Content F) → W → HttpRequest F → W × Answer F
cors_middleware next_handler w r =
    if is_options r.method
    then (w, record { cors_headers = allowed; content = no_content })
    else (let (w', c) = next_handler w r in (w', record { cors_headers = allowed; content = c }))
