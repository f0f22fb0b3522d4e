-- ===== src/Proxy/Client.antt =====
-- internal/proxy/client.go: the client on a network, where each backend is called at its own address.
use infer_flow.Prelude.{ℕ, Bool, Option, ◌++◌}
use infer_flow.Text.{Text, codes}
use infer_flow.Proxy.{
  ChatCompletionRequest, ChatCompletionResponse, BackendRequest, BackendResponse, Exchange,
  send_chat_completion, health_check,
}
use infer_flow.Router.Heap.{Backend}

-- What a GET of a URL, and a POST of a request to it, come to before the timeout of the client. A URL
-- that is not valid, which makes no request, is not reached either.
pub record Net (F : Type 0) : Type 0 where
  pub get : Text → Exchange (Unit {0})
  pub post : Text → BackendRequest F → Exchange BackendResponse

module _ {F : Type 0} (net : Net F) where
  -- `SendChatCompletion`, with the URL of the backend.
  unfoldable pub call_backend :
      ℕ → Backend → ChatCompletionRequest F → Option ChatCompletionResponse
  call_backend now backend r =
      send_chat_completion now r (net.post (backend.base_url ++ codes "/infer"))

  -- `HealthCheck`, with the URL of the backend.
  unfoldable pub check_backend : Backend → Bool
  check_backend backend = health_check (net.get (backend.base_url ++ codes "/healthz"))
