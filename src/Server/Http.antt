-- ===== src/Server/Http.antt =====
-- internal/server/server.go: a request over HTTP from its path to its answer, the wait for a backend
-- included, on a network and with nothing beside it.
pub mod Answers
pub mod Cases
pub mod Answered
mod Tests
use infer_flow.Prelude.{ℕ, ◌≡◌, refl, List, Option, none, some}
use infer_flow.Text.{Text}
use infer_flow.Cache.Store.{Store}
use infer_flow.Metrics.{Float64}
use infer_flow.Proxy.Client.{Net}
use infer_flow.Router.Random.{Rng}
use infer_flow.Server.State.{Server}
use infer_flow.Server.Chat.{Method, Response, Opened, rejected, dispatched, aborted}
use infer_flow.Server.Routes.{
  HttpRequest, Content, plain, waits, broken, Answer, content_of, route, cors_middleware,
}
use infer_flow.Server.Handle.{complete_chat}

abbrev pub content_of_reply : {F : Type 0} → Option Response → Content F
content_of_reply none = broken
content_of_reply (some r) = plain r

module _ {S R F : Type 0} (store : Store S) (g : Rng R) (float : Float64 F) (sha256 : Text → List ℕ)
    (net : Net F) where
  -- The rest of a chat that waits for its backend.
  unfoldable pub finish : ℕ → Server S R F → Content F → Server S R F × Content F
  finish later s (waits p) =
      let (s', reply) = complete_chat store g float sha256 net later s (dispatched p) in
      (s', content_of_reply reply)
  finish later s c = (s, c)

  -- The content of a chat is that of `handleChatCompletions`.
  pub finish-content_of :
      (later : ℕ) (s : Server S R F) (o : Opened F)
      → finish later s (content_of o) ≡ (
          let (s', reply) = complete_chat store g float sha256 net later s o in
          (s', content_of_reply reply))
  unfolding finish complete_chat
  finish-content_of later s (rejected r) = refl
  finish-content_of later s (dispatched p) = refl
  finish-content_of later s aborted = refl

  -- The whole of the server for one request.
  unfoldable pub serve_http :
      (ℕ → ℕ)
      → (Text → Text)
      → (Method → Text → Option Text)
      → ℕ
      → ℕ
      → Server S R F
      → HttpRequest F
      → Server S R F × Answer F
  serve_http lower quote clean now later s r =
      cors_middleware
        (λ w q.
          let (w', c) = route store g float lower sha256 quote clean now w q in finish later w' c)
        s r
