-- ===== src/Server/Http/Answers.antt =====
-- What a client gets over HTTP: the path, the method, and what is behind them.
use infer_flow.Prelude.{
  ℕ, ◌%◌, ◌≡◌, ◌≢◌, true, false, List, [], ◌∷◌, Mem, All, Option, none, some, length,
}
use infer_flow.Text.{Text, codes}
use infer_flow.Int64.{two64}
use infer_flow.Proxy.Client.{Net}
use infer_flow.Router.Heap.{Heap, is_healthy}
use infer_flow.Router.Random.{Rng}
use infer_flow.Router.Strategy.{name_of}
use infer_flow.Server.Names.{normalize_strategy_name}
use infer_flow.Server.State.{Server, Config}
use infer_flow.Server.Chat.{
  Method, get, put, options, Response, fail, write_json, status_is, health, strategy_is,
}
use infer_flow.Server.Handle.Outcomes.{Handled}
use infer_flow.Server.Handlers.{handle_strategy}
use infer_flow.Server.Routes.{
  HttpRequest, Content, plain, metrics_text, report, moved, no_content, not_found,
}
use infer_flow.Server.Status.{StatusReport, metrics_lines}
use infer_flow.Server.Status.Reported.{IsReport}
use infer_flow.Server.Switch.{HasPut}
use infer_flow.Server.System.{System}

-- The paths that have a handler.
abbrev pub paths : List Text
paths =
    codes "/healthz"
    ∷ codes "/readyz"
    ∷ codes "/metrics"
    ∷ codes "/strategy"
    ∷ codes "/api/status"
    ∷ codes "/v1/chat/completions"
    ∷ []

-- The answer of the handler of a path, and the server behind it.
pub data IsHandled {S R F : Type 0} (g : Rng R) (lower : ℕ → ℕ) (quote : Text → Text) (net : Net F)
    (unix : ℕ) (cfg : Config) (h : Heap) (w : System S R F) (r : HttpRequest F) (s' : Server S R F)
    (c : Content F) : Type 0 where
  alive :
      r.path ≡ codes "/healthz"
      → s' ≡ w.server
      → c ≡ plain (write_json [] 200 (health (codes "ok") (length w.active % two64)))
      → IsHandled g lower quote net unix cfg h w r s' c
  ready :
      (b : ℕ)
      → r.path ≡ codes "/readyz"
      → s' ≡ w.server
      → Mem b cfg.backends
      → is_healthy w.server.heap b ≡ true
      → c ≡ plain (write_json [] 200 (status_is (codes "ready")))
      → IsHandled g lower quote net unix cfg h w r s' c
  unready :
      r.path ≡ codes "/readyz"
      → s' ≡ w.server
      → All (λ b. is_healthy w.server.heap b ≡ false) cfg.backends
      → c ≡ plain (write_json [] 503 (status_is (codes "no healthy backend")))
      → IsHandled g lower quote net unix cfg h w r s' c
  measured :
      r.path ≡ codes "/metrics"
      → s' ≡ w.server
      → c
        ≡ metrics_text (record {
          status = 200;
          headers = (codes "Content-Type", codes "text/plain; version=0.0.4") ∷ [];
          body = metrics_lines quote w.server;
        })
      → IsHandled g lower quote net unix cfg h w r s' c
  strategy_read :
      r.path ≡ codes "/strategy"
      → r.method ≡ get
      → s' ≡ w.server
      → c ≡ plain (write_json [] 200 (strategy_is (name_of w.server.strategy)))
      → IsHandled g lower quote net unix cfg h w r s' c
  strategy_undecodable :
      r.path ≡ codes "/strategy"
      → r.method ≡ put
      → r.strategy_body ≡ none
      → s' ≡ w.server
      → c ≡ plain (fail 400 (codes "invalid json"))
      → IsHandled g lower quote net unix cfg h w r s' c
  strategy_put :
      (raw : Text) (response : Response)
      → r.path ≡ codes "/strategy"
      → r.method ≡ put
      → r.strategy_body ≡ some raw
      → HasPut w.server
          (normalize_strategy_name lower raw)
          s'
          response
          (handle_strategy g lower s' get none).1
      → c ≡ plain response
      → IsHandled g lower quote net unix cfg h w r s' c
  strategy_not_allowed :
      r.path ≡ codes "/strategy"
      → r.method ≢ get
      → r.method ≢ put
      → s' ≡ w.server
      → c ≡ plain (fail 405 (codes "method not allowed"))
      → IsHandled g lower quote net unix cfg h w r s' c
  reported :
      (status : StatusReport F)
      → r.path ≡ codes "/api/status"
      → r.method ≡ get
      → s' ≡ w.server
      → IsReport cfg h w status
      → c
        ≡ report (record {
          status = 200;
          headers = (codes "Content-Type", codes "application/json") ∷ [];
          body = status;
        })
      → IsHandled g lower quote net unix cfg h w r s' c
  report_not_allowed :
      r.path ≡ codes "/api/status"
      → r.method ≢ get
      → s' ≡ w.server
      → c ≡ plain (fail 405 (codes "method not allowed"))
      → IsHandled g lower quote net unix cfg h w r s' c
  chatted :
      (response : Response)
      → r.path ≡ codes "/v1/chat/completions"
      → Handled net unix cfg.backends w.server r.method r.chat_body s' (some response)
      → c ≡ plain response
      → IsHandled g lower quote net unix cfg h w r s' c
  missing :
      All (λ path. r.path ≢ path) paths
      → s' ≡ w.server
      → c ≡ not_found
      → IsHandled g lower quote net unix cfg h w r s' c

-- The answer to a request: what `corsMiddleware` and the multiplexer answer themselves, and else what
-- the handler of the path answers.
pub data IsAnswered {S R F : Type 0} (g : Rng R) (lower : ℕ → ℕ) (quote : Text → Text)
    (clean : Method → Text → Option Text) (net : Net F) (unix : ℕ) (cfg : Config) (h : Heap)
    (w : System S R F) (r : HttpRequest F) (s' : Server S R F) (c : Content F) : Type 0 where
  preflight :
      r.method ≡ options
      → s' ≡ w.server
      → c ≡ no_content
      → IsAnswered g lower quote clean net unix cfg h w r s' c
  elsewhere :
      (path : Text)
      → r.method ≢ options
      → clean r.method r.path ≡ some path
      → s' ≡ w.server
      → c ≡ moved path
      → IsAnswered g lower quote clean net unix cfg h w r s' c
  handled :
      r.method ≢ options
      → clean r.method r.path ≡ none
      → IsHandled g lower quote net unix cfg h w r s' c
      → IsAnswered g lower quote clean net unix cfg h w r s' c
