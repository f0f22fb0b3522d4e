-- ===== src/Server/Handle/Running.antt =====
-- `handleChatCompletions` on the running server, among requests that wait.
use mathlib.Core.Path.{subst}
use infer_flow.Prelude.{ℕ, ◌/◌, ◌≤◌, ◌<◌, ◌≡◌, refl, sym, ◌∙◌, List, [], Option, length}
use infer_flow.Text.{Text}
use infer_flow.Int64.{two63}
use infer_flow.Cache.Store.{Store}
use infer_flow.Metrics.{Float64}
use infer_flow.Proxy.{ChatCompletionRequest}
use infer_flow.Proxy.Client.{Net}
use infer_flow.Router.Heap.{Heap}
use infer_flow.Router.Slots.{max_backends}
use infer_flow.Router.Random.{Rng}
use infer_flow.Server.State.{Server, Config}
use infer_flow.Server.Chat.{Method, Pending, Opened, rejected, dispatched, aborted}
use infer_flow.Server.Handle.{complete_chat, handle_chat_completions}
use infer_flow.Server.Handle.Outcomes.{Handled, handle_chat_completions-Handled}
use infer_flow.Server.System.{System, enter, Reach, next, opens, closes, initial}
use infer_flow.Server.System.Equipped.{turns, IsEquipped-IsReady}
use infer_flow.Server.System.Load.{Reach-holders}
use infer_flow.Server.System.Runs.{initial-IsConsistent, Reach-IsConsistent}
use infer_flow.Server.System.Service.{Reach-IsServing}

module _ {S R F : Type 0} (store : Store S) (g : Rng R) (float : Float64 F) (lower : ℕ → ℕ)
    (sha256 : Text → List ℕ) (net : Net F) where
  complete_chat-Reach :
      (later : ℕ) (w : System S R F) (s : Server S R F) (ps : List (Pending F)) (o : Opened F)
      → Reach store g float lower sha256 w (record { server = s; active = enter o ps })
      → Reach store g float lower sha256 w
          (record { server = (complete_chat store g float sha256 net later s o).0; active = ps })
  unfolding complete_chat
  complete_chat-Reach later w s ps (rejected response) run = run
  complete_chat-Reach later w s ps (dispatched p) run = next run (closes later _ [] ps p refl)
  complete_chat-Reach later w s ps aborted run = run

  -- The server behind the whole handler is reachable, with the requests that were in flight before.
  pub handle_chat_completions-Reach :
      (now later : ℕ) (method : Method) (body : Option (ChatCompletionRequest F))
      (v w : System S R F)
      → Reach store g float lower sha256 v w
      → Reach store g float lower sha256 v (record {
        server =
            (handle_chat_completions store g float sha256 net now later w.server method body).0;
        active = w.active;
      })
  unfolding handle_chat_completions
  handle_chat_completions-Reach now later method body v w run =
      complete_chat-Reach later v _ w.active _ (next run (opens now method body))

  -- From a start with all counters at zero, in every state that the server reaches, with at most 2 ^ 62
  -- backends and a strategy whose counter of turns is below 2 ^ 63: `handleChatCompletions`, as a whole
  -- and with nothing beside it, answers 405 to another method than POST, 400 to a body that does not
  -- decode or does not pass the validation, and leaves the server as it is then. A valid request gets
  -- 503 while `/readyz` answers 503; while that answers 200, it goes to a healthy backend of the
  -- configuration, whose completion is passed on with status 200, or whose error is status 502, counted,
  -- and marks this backend and no other as down. Every load counter and the gauge are then what they
  -- were before, whatever came in.
  pub Reach-Handled :
      (cfg : Config) (st : S) (h : Heap) {w : System S R F} (now later : ℕ) (method : Method)
      (body : Option (ChatCompletionRequest F))
      → ((c : ℕ) → h.counter c ≡ 0)
      → Reach store g float lower sha256 (initial cfg st h) w
      → length cfg.backends ≤ max_backends
      → turns w.server.strategy < two63
      → let (s', reply) =
          handle_chat_completions store g float sha256 net now later w.server method body in
        Handled net (later / 1000000000) cfg.backends w.server method body s' reply
        × ((c : ℕ) → s'.heap.counter c ≡ w.server.heap.counter c)
        × (s'.metrics.in_flight ≡ w.server.metrics.in_flight)
  Reach-Handled cfg st h {w} now later method body zero run fits low =
      let serving = Reach-IsServing store g float lower sha256 cfg st h run in
      let (s', reply) =
        handle_chat_completions store g float sha256 net now later w.server method body in
      let over = handle_chat_completions-Reach now later method body (initial cfg st h) w run in
      let start = initial-IsConsistent cfg st h zero in
      (
        subst (λ bs. Handled net (later / 1000000000) bs w.server method body s' reply)
            serving.equipped.backends
            (handle_chat_completions-Handled store g float sha256 net now later w.server
              (IsEquipped-IsReady cfg.backends w.server.strategy fits low serving.equipped) method
              body),
        (λ c.
            Reach-holders store g float lower sha256 cfg st h zero over c
            ∙ sym (Reach-holders store g float lower sha256 cfg st h zero run c)),
        (Reach-IsConsistent store g float lower sha256 start over).gauge
            ∙ sym (Reach-IsConsistent store g float lower sha256 start run).gauge,
      )
