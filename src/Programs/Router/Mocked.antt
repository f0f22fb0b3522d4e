-- ===== src/Programs/Router/Mocked.antt =====
-- The router in front of mock backends, from the client's request to the client's response.
use mathlib.Core.Path.{subst}
use infer_flow.Prelude.{
  ℕ, nat_eq, ◌/◌, ◌≤◌, ◌<◌, ◌≡◌, refl, ap, Bool, true, List, [], ◌∷◌, Mem, Option, none, some,
  arith, length, map,
}
use infer_flow.Text.{Text, text_eq, codes}
use infer_flow.Int64.{two63}
use infer_flow.Cache.Store.{Store}
use infer_flow.Metrics.{Float64}
use infer_flow.MockBackend.{output_text, fallback, collapse_messages, handle_infer, serve}
use infer_flow.MockBackend
use infer_flow.MockBackend.Greeting.{IsGreeting, output_text-IsGreeting}
use infer_flow.MockBackend.Answers.{message_of, mock_net}
use infer_flow.Proxy.{
  ChatMessage, ChatCompletionRequest, BackendResponse, backend_request, completion_of,
  send_chat_completion,
}
use infer_flow.Proxy.Client.{call_backend}
use infer_flow.Router.Heap.{Backend, is_healthy}
use infer_flow.Router.Slots.{max_backends}
use infer_flow.Router.Random.{Rng}
use infer_flow.Server.Config.{Affinity, Loaded}
use infer_flow.Server.Request.{validate_chat_request}
use infer_flow.Server.State.{Server}
use infer_flow.Server.Handlers.{handle_readyz}
use infer_flow.Server.Chat.{Response, post, completion, route_headers, write_json}
use infer_flow.Server.Handle.{handle_chat_completions}
use infer_flow.Server.Handle.Outcomes.{Handled, Forwarded, Handled-Forwarded}
use infer_flow.Server.Handle.Running.{Reach-Handled}
use infer_flow.Server.System.{System, Reach}
use infer_flow.Server.System.Equipped.{turns}
use infer_flow.Adapter.EndToEnd.{model_nonempty}
use infer_flow.Programs.Router.Sticky.{length-addresses}
use infer_flow.Programs.Router.{config_of, memory_of, boot}

-- The mock backend's answer, as the code makes it.
abbrev mock_reply : {F : Type 0} → ChatCompletionRequest F → BackendResponse
mock_reply r = record {
  model = r.model;
  output_text = output_text (collapse_messages (map message_of r.messages));
}

message_of-content :
    (ms : List ChatMessage) → map (λ m. m.content) (map message_of ms) ≡ map (λ m. m.content) ms
message_of-content [] = refl
message_of-content (m ∷ ms) = ap (λ cs. m.content ∷ cs) (message_of-content ms)

model_kept :
    {F : Type 0} (r : ChatCompletionRequest F)
    → validate_chat_request r ≡ none
    → fallback r.model (codes "mock-llm") ≡ r.model
unfolding validate_chat_request fallback
model_kept r valid = ground (arith, model_nonempty r.model)

call_backend-mock :
    {F : Type 0} (unix : ℕ) (backend : Backend) (r : ChatCompletionRequest F)
    → validate_chat_request r ≡ none
    → call_backend mock_net unix backend r ≡ some (completion_of unix r (mock_reply r))
unfolding call_backend send_chat_completion serve handle_infer MockBackend.write_json
    backend_request
call_backend-mock unix backend r valid = rw (model_kept r valid) refl

-- A response that a healthy backend of the list has answered with a greeting, behind which no backend
-- has changed.
abbrev pub Greeted :
    {S R F : Type 0}
    → ℕ
    → List ℕ
    → Server S R F
    → ChatCompletionRequest F
    → Server S R F
    → Option Response
    → Type 0
Greeted unix bs s r s' reply =
    (b : ℕ) × (hit : Bool) × (text : Text) × Mem b bs
    × (is_healthy s.heap b ≡ true)
    × IsGreeting (map (λ m. m.content) r.messages) text
    × (reply
        ≡ some (
            write_json (route_headers (s.heap.backend b).name s.strategy_name hit) 200
              (completion (completion_of unix r (record { model = r.model; output_text = text })))))
    × (s'.heap.backend ≡ s.heap.backend)

Handled-Greeted :
    {S R F : Type 0} (unix : ℕ) (bs : List ℕ) (s s' : Server S R F) (r : ChatCompletionRequest F)
    (reply : Option Response)
    → validate_chat_request r ≡ none
    → (handle_readyz s).status ≡ 200
    → Handled mock_net unix bs s post (some r) s' reply
    → Greeted unix bs s r s' reply
Handled-Greeted unix bs s s' r reply valid ready handled =
    let (b, hit, member, healthy, f) =
      Handled-Forwarded mock_net unix bs s s' r reply valid ready handled in
    let (replied_so, kept, errors) =
      subst (Forwarded s b hit s' reply) (call_backend-mock unix (s.heap.backend b) r valid) f in
    (
      b,
      hit,
      _,
      member,
      healthy,
      rw (← message_of-content r.messages) (output_text-IsGreeting (map message_of r.messages)),
      replied_so,
      kept,
    )

module _ {S R F : Type 0} (store : Store S) (g : Rng R) (float : Float64 F) (lower : ℕ → ℕ)
    (sha256 : Text → List ℕ) where
  -- A router with at most 2 ^ 62 backends, all of them mock backends, in any reachable state whose
  -- strategy has its counter of turns below 2 ^ 63: while `/readyz` answers 200, a valid request that
  -- nothing runs beside is answered by a healthy backend of the configuration, with status 200 and a
  -- completion of the request's model. Its text is a fixed one if all contents of the messages are
  -- blank, and else a greeting with the contents that are not blank, in their order, separated by single
  -- blanks. No backend changes.
  pub start-Greeted :
      (connect : Affinity → S) (l : Loaded) {w : System S R F} (now later : ℕ)
      (r : ChatCompletionRequest F)
      → length l.backends ≤ max_backends
      → Reach store g float lower sha256 (boot connect l) w
      → turns w.server.strategy < two63
      → validate_chat_request r ≡ none
      → (handle_readyz w.server).status ≡ 200
      → let (s', reply) =
          handle_chat_completions store g float sha256 mock_net now later w.server post (some r) in
        Greeted (later / 1000000000) (config_of l).backends w.server r s' reply
  start-Greeted connect l {w} now later r fits run low valid ready =
      let small : length (config_of l).backends ≤ max_backends =
        omega (arith, length-addresses (length l.backends) 0) in
      let (handled, counters, gauge) =
        Reach-Handled store g float lower sha256 mock_net (config_of l) (connect l.affinity_store)
          (memory_of l.backends) now later post (some r) (λ c. refl) run small low in
      Handled-Greeted _ _ w.server _ r _ valid ready handled
