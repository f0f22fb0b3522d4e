-- ===== src/Server/Handle/Outcomes.antt =====
-- What a client gets from `handleChatCompletions`, on every branch.
use mathlib.Core.Path.{subst}
use infer_flow.Prelude.{
  ℕ, nat_eq, ◌/◌, ◌≡◌, ◌≢◌, refl, sym, ap, ◌∙◌, inl, inr, Bool, true, false, ◌==◌, List, Mem,
  Option, none, some, arith, if◌then◌else◌, Bool-cases, Option-cases,
}
use infer_flow.Text.{Text, codes}
use infer_flow.Int64.{add64}
use infer_flow.Cache.Store.{Store}
use infer_flow.Metrics.{Float64}
use infer_flow.Proxy.{ChatCompletionRequest, ChatCompletionResponse}
use infer_flow.Proxy.Client.{Net, call_backend}
use infer_flow.Router.Heap.{is_healthy}
use infer_flow.Router.Decision.{Decision}
use infer_flow.Router.Random.{Rng}
use infer_flow.Router.Strategy.{backends_of, has_healthy_backend}
use infer_flow.Router.Strategy.Serves.{IsReady}
use infer_flow.Server.Request.{RequestError, validate_chat_request}
use infer_flow.Server.State.{Server}
use infer_flow.Server.Handlers.{handle_readyz}
use infer_flow.Server.Chat.{
  Method, get, post, put, options, other, Response, Pending, Opened, dispatched, fail, write_json,
  message, completion, store_or, error_text, route_headers, open_chat, close_chat, settle_chat,
  run_defers,
}
use infer_flow.Server.Failover.{pending_of, open_chat-Answers, open_chat_unready, healthy_after}
use infer_flow.Server.Handle.{complete_chat, handle_chat_completions}
use infer_flow.Server.Handle.Parts.{
  SameHealth, open_chat-SameHealth, close_chat-SameHealth, close_chat_failed-backend_errors,
}

-- What the answer of backend `b` makes of the server, and of the response. A completion is passed on,
-- and no backend changes. An error is status 502: `b` is marked as down, which is counted, and no other
-- backend changes.
abbrev pub Forwarded :
    {S R F : Type 0}
    → Server S R F
    → ℕ
    → Bool
    → Server S R F
    → Option Response
    → Option ChatCompletionResponse
    → Type 0
Forwarded s b hit s' reply (some c) =
    (reply
      ≡ some (
          write_json (route_headers (s.heap.backend b).name s.strategy_name hit) 200
            (completion c)))
    × (s'.heap.backend ≡ s.heap.backend)
    × (s'.metrics.backend_errors ≡ s.metrics.backend_errors)
Forwarded s b hit s' reply none =
    (reply
      ≡ some (record {
        status = 502;
        headers = route_headers (s.heap.backend b).name s.strategy_name hit;
        body = message (codes "backend request failed");
      }))
    × ((k : ℕ) → is_healthy s'.heap k ≡ (if b == k then false else is_healthy s.heap k))
    × (s'.metrics.backend_errors ≡ add64 s.metrics.backend_errors 1)

module _ {S R F : Type 0} (store : Store S) (float : Float64 F) where
  close_chat-Forwarded :
      (later : ℕ) (s s1 : Server S R F) (p : Pending F) (answer : Option ChatCompletionResponse)
      → SameHealth s s1
      → p.strategy_name ≡ s.strategy_name
      → let (s', response) = close_chat store float later s1 p answer in
        Forwarded s p.decision.backend p.decision.cache_hit s' (some response) answer
  unfolding close_chat settle_chat run_defers is_healthy
  close_chat-Forwarded later s s1 p (some c) same named =
      let after = close_chat-SameHealth store float later s1 p c in
      (rw (same.backends, named) refl, after.backends ∙ same.backends, after.errors ∙ same.errors)
  close_chat-Forwarded later s s1 p none same named = (
    rw (same.backends, named) refl,
    (λ k.
        healthy_after s1.heap p.decision k
        ∙ ap (λ f. if p.decision.backend == k then false else (f k).healthy) same.backends),
    close_chat_failed-backend_errors store float later s1 p ∙ ap (λ n. add64 n 1) same.errors,
  )

-- What a request comes to: the server before and after it, and the response.
pub data Handled {S R F : Type 0} (net : Net F) (unix : ℕ) (bs : List ℕ) (s : Server S R F)
    (method : Method) (body : Option (ChatCompletionRequest F)) (s' : Server S R F)
    (reply : Option Response) : Type 0 where
  wrong_method :
      method ≢ post
      → s' ≡ s
      → reply ≡ some (fail 405 (codes "method not allowed"))
      → Handled net unix bs s method body s' reply
  undecodable :
      method ≡ post
      → body ≡ none
      → s' ≡ s
      → reply ≡ some (fail 400 (codes "invalid json"))
      → Handled net unix bs s method body s' reply
  invalid :
      (r : ChatCompletionRequest F) (e : RequestError)
      → method ≡ post
      → body ≡ some r
      → validate_chat_request r ≡ some e
      → s' ≡ s
      → reply ≡ some (fail 400 (error_text e))
      → Handled net unix bs s method body s' reply
  unready :
      (r : ChatCompletionRequest F)
      → method ≡ post
      → body ≡ some r
      → validate_chat_request r ≡ none
      → (handle_readyz s).status ≡ 503
      → s'.heap.backend ≡ s.heap.backend
      → reply ≡ some (fail 503 (codes "no healthy backend available"))
      → Handled net unix bs s method body s' reply
  forwarded :
      (r : ChatCompletionRequest F) (b : ℕ) (hit : Bool)
      → method ≡ post
      → body ≡ some r
      → validate_chat_request r ≡ none
      → (handle_readyz s).status ≡ 200
      → Mem b bs
      → is_healthy s.heap b ≡ true
      → Forwarded s b hit s' reply (call_backend net unix (s.heap.backend b) r)
      → Handled net unix bs s method body s' reply

-- A valid request on a server that is ready is sent to a backend.
pub Handled-Forwarded :
    {S R F : Type 0} (net : Net F) (unix : ℕ) (bs : List ℕ) (s s' : Server S R F)
    (r : ChatCompletionRequest F) (reply : Option Response)
    → validate_chat_request r ≡ none
    → (handle_readyz s).status ≡ 200
    → Handled net unix bs s post (some r) s' reply
    → (b : ℕ) × (hit : Bool) × Mem b bs
      × (is_healthy s.heap b ≡ true)
      × Forwarded s b hit s' reply (call_backend net unix (s.heap.backend b) r)
Handled-Forwarded net unix bs s s' r reply valid ready (wrong_method differs same e) =
    absurd (differs refl)
Handled-Forwarded net unix bs s s' r reply valid ready (undecodable m none_sent same e) = cc
Handled-Forwarded net unix bs s s' r reply valid ready (invalid r' error m sent bad same e) = cc
Handled-Forwarded net unix bs s s' r reply valid ready (unready r' m sent ok down same e) =
    absurd (omega arith)
Handled-Forwarded net unix bs s s' r reply valid ready
      (forwarded r' b hit m sent ok up member healthy f) =
    let same : r' ≡ r = ap (store_or r) (sym sent) in
    (
      b,
      hit,
      member,
      healthy,
      subst (λ q. Forwarded s b hit s' reply (call_backend net unix (s.heap.backend b) q)) same f,
    )

module _ {S R F : Type 0} (store : Store S) (g : Rng R) (float : Float64 F) (sha256 : Text → List ℕ)
    (net : Net F) (now later : ℕ) (s : Server S R F) (ready : IsReady s.strategy) where
  abbrev IsHandled : Method → Option (ChatCompletionRequest F) → Type 0
  IsHandled method body =
      let (s', reply) = handle_chat_completions store g float sha256 net now later s method body in
      Handled net (later / 1000000000) (backends_of s.strategy) s method body s' reply

  complete_chat-Handled :
      (r : ChatCompletionRequest F) (d : Decision) (s1 : Server S R F) (o : Opened F)
      → validate_chat_request r ≡ none
      → has_healthy_backend s.heap s.strategy ≡ true
      → Mem d.backend (backends_of s.strategy)
      → is_healthy s.heap d.backend ≡ true
      → SameHealth s s1
      → o ≡ dispatched (pending_of sha256 now s r d)
      → let (s', reply) = complete_chat store g float sha256 net later s1 o in
        Handled net (later / 1000000000) (backends_of s.strategy) s post (some r) s' reply
  unfolding complete_chat handle_readyz
  complete_chat-Handled r d s1 o valid up member healthy same sent =
      rw (sent, complete_chat)
        (forwarded r d.backend d.cache_hit refl refl valid (rw up refl) member healthy (
          subst
            (λ f.
              let answer = call_backend net (later / 1000000000) (f d.backend) r in
              let (s', response) =
                close_chat store float later s1 (pending_of sha256 now s r d)
                  (call_backend net (later / 1000000000) (s1.heap.backend d.backend) r) in
              Forwarded s d.backend d.cache_hit s' (some response) answer)
            same.backends
            (close_chat-Forwarded store float later s s1 (pending_of sha256 now s r d) _ same
              refl)))

  ready-IsHandled :
      (r : ChatCompletionRequest F)
      → validate_chat_request r ≡ none
      → has_healthy_backend s.heap s.strategy ≡ true
      → IsHandled post (some r)
  unfolding handle_chat_completions
  ready-IsHandled r valid up =
      let (d, sent, member, healthy) = open_chat-Answers store g sha256 now s r valid ready up in
      complete_chat-Handled r d _ _ valid up member healthy
        (open_chat-SameHealth store g sha256 now s r valid) sent

  unready-IsHandled :
      (r : ChatCompletionRequest F)
      → validate_chat_request r ≡ none
      → has_healthy_backend s.heap s.strategy ≡ false
      → IsHandled post (some r)
  unfolding handle_chat_completions complete_chat handle_readyz
  unready-IsHandled r valid down =
      rw (open_chat_unready store g sha256 now s r valid ready down, complete_chat)
        (unready r refl refl valid (rw down refl)
          (open_chat-SameHealth store g sha256 now s r valid).backends refl)

  -- Whatever comes in.
  pub handle_chat_completions-Handled :
      (method : Method) (body : Option (ChatCompletionRequest F)) → IsHandled method body
  unfolding handle_chat_completions complete_chat open_chat
  handle_chat_completions-Handled post none = undecodable refl refl refl refl
  handle_chat_completions-Handled post (some r) = elim (Option-cases (validate_chat_request r)) [
    | inl valid ↦ elim (Bool-cases (has_healthy_backend s.heap s.strategy)) [
      | inl up ↦ ready-IsHandled r valid up
      | inr down ↦ unready-IsHandled r valid down
    ]
    | inr (e, bad) ↦ rw (bad, open_chat) (invalid r e refl refl bad refl refl)
  ]
  handle_chat_completions-Handled get body = wrong_method (λ e. cc) refl refl
  handle_chat_completions-Handled put body = wrong_method (λ e. cc) refl refl
  handle_chat_completions-Handled options body = wrong_method (λ e. cc) refl refl
  handle_chat_completions-Handled other body = wrong_method (λ e. cc) refl refl
