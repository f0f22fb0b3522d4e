-- ===== src/Server/Handle.antt =====
-- internal/server/server.go: `handleChatCompletions` from its first line to its last, on a network.
pub mod Parts
pub mod Outcomes
pub mod Running
mod Tests
use infer_flow.Prelude.{ℕ, ◌/◌, List, Option, none, some}
use infer_flow.Text.{Text}
use infer_flow.Cache.Store.{Store}
use infer_flow.Metrics.{Float64}
use infer_flow.Proxy.{ChatCompletionRequest}
use infer_flow.Proxy.Client.{Net, call_backend}
use infer_flow.Router.Random.{Rng}
use infer_flow.Server.State.{Server}
use infer_flow.Server.Chat.{
  Method, Response, Opened, rejected, dispatched, aborted, open_chat, close_chat,
}

module _ {S R F : Type 0} (store : Store S) (g : Rng R) (float : Float64 F) (sha256 : Text → List ℕ)
    (net : Net F) where
  -- The handler behind the selection; `none` is a panic. `later` is the clock, in nanoseconds of Unix
  -- time, when the backend has answered.
  unfoldable pub complete_chat : ℕ → Server S R F → Opened F → Server S R F × Option Response
  complete_chat later s (rejected response) = (s, some response)
  complete_chat later s (dispatched p) =
      let answer =
        call_backend net (later / 1000000000) (s.heap.backend p.decision.backend) p.request in
      let (s', response) = close_chat store float later s p answer in (s', some response)
  complete_chat later s aborted = (s, none)

  -- `handleChatCompletions`, where nothing else runs while the backend is waited for.
  unfoldable pub handle_chat_completions :
      ℕ
      → ℕ
      → Server S R F
      → Method
      → Option (ChatCompletionRequest F)
      → Server S R F × Option Response
  handle_chat_completions now later s method body =
      let (s', o) = open_chat store g sha256 now s method body in complete_chat later s' o
