-- ===== src/Server/Handlers.antt =====
-- internal/server/server.go: the small handlers.
use infer_flow.Prelude.{ℕ, Option, none, some, [], if◌then◌else◌}
use infer_flow.Text.{Text, codes}
use infer_flow.Metrics.{get_in_flight}
use infer_flow.Router.Random.{Rng}
use infer_flow.Router.Strategy.{has_healthy_backend}
use infer_flow.Server.Names.{
  NameResult, NameError, named, refused, strategy_required, unsupported_strategy,
}
use infer_flow.Server.State.{Server, set_strategy}
use infer_flow.Server.Chat.{
  Method, get, put, Response, status_is, health, strategy_is, write_json, fail,
}

module _ {S R F : Type 0} where
  -- `handleReadyz`.
  unfoldable pub handle_readyz : Server S R F → Response
  handle_readyz s =
      if has_healthy_backend s.heap s.strategy
      then write_json [] 200 (status_is (codes "ready"))
      else write_json [] 503 (status_is (codes "no healthy backend"))

  -- `handleHealthz`.
  unfoldable pub handle_healthz : Server S R F → Response
  handle_healthz s = write_json [] 200 (health (codes "ok") (get_in_flight s.metrics))

abbrev pub name_error_text : NameError → Text
name_error_text strategy_required = codes "strategy is required"
name_error_text unsupported_strategy = codes "unsupported strategy"

abbrev pub strategy_response : NameResult → Response
strategy_response (named name) = write_json [] 200 (strategy_is name)
strategy_response (refused e) = fail 400 (name_error_text e)

module _ {S R F : Type 0} (g : Rng R) (lower : ℕ → ℕ) where
  -- `handleStrategy`; the body is the decoded name.
  unfoldable pub handle_strategy : Server S R F → Method → Option Text → Server S R F × Response
  handle_strategy s get body = (s, write_json [] 200 (strategy_is s.strategy_name))
  handle_strategy s put none = (s, fail 400 (codes "invalid json"))
  handle_strategy s put (some raw) =
      let (s', result) = set_strategy g lower raw s in (s', strategy_response result)
  handle_strategy s method body = (s, fail 405 (codes "method not allowed"))
