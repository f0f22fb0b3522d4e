-- ===== src/Server/Failover.antt =====
-- internal/server/server.go: the request after one that failed.
mod Tests
use mathlib.Core.Path.{subst}
use infer_flow.Prelude.{
  ℕ, ◌==◌, nat_eq, ◌≡◌, ◌≢◌, refl, sym, ◌∙◌, ap, Bool, true, false, List, none, some, Mem, arith,
  if◌then◌else◌,
}
use infer_flow.Text.{Text, codes}
use infer_flow.Cache.Store.{Store}
use infer_flow.Metrics.{Float64}
use infer_flow.Proxy.{ChatCompletionRequest}
use infer_flow.Router.Heap.{Heap, is_healthy, set_healthy, add_counter}
use infer_flow.Router.Decision.{Decision, release, SelectionInput}
use infer_flow.Router.Random.{Rng}
use infer_flow.Router.Serves.{any_healthy-here}
use infer_flow.Router.Strategy.{backends_of, has_healthy_backend}
use infer_flow.Router.Strategy
use infer_flow.Router.Strategy.Serves.{
  IsReady, has_healthy_backend-select, has_healthy_backend-any_healthy, Answers,
}
use infer_flow.Server.Request.{validate_chat_request, estimate_request_cost, build_cache_key}
use infer_flow.Server.State.{Server}
use infer_flow.Server.Chat.{
  post, Pending, rejected, dispatched, fail, dispatch, open_chat, close_chat, run_defers,
  settle_chat, accept,
}
use infer_flow.Server.Affinity.{open_chat-accept, dispatch_ok}

-- The health of the backends once a request to `k` has failed.
pub healthy_after :
    (h : Heap) (d : Decision) (b : ℕ)
    → is_healthy (release d (set_healthy d.backend false h)).1 b
      ≡ (if d.backend == b then false else is_healthy h b)
unfolding is_healthy set_healthy release add_counter
healthy_after h d b = ground arith

pub still_healthy :
    (h : Heap) (d : Decision) (b : ℕ)
    → is_healthy (release d (set_healthy d.backend false h)).1 b ≡ true
    → (b ≢ d.backend) × (is_healthy h b ≡ true)
still_healthy h d b e =
    let e' : (if d.backend == b then false else is_healthy h b) ≡ true =
      sym (healthy_after h d b) ∙ e in
    (λ same. absurd (ground (arith, e', same)), ground arith)

-- A request as it waits for the backend of the decision.
abbrev pub pending_of :
    {S R F : Type 0}
    → (Text → List ℕ)
    → ℕ
    → Server S R F
    → ChatCompletionRequest F
    → Decision
    → Pending F
pending_of sha256 now s r d = record {
  request = r;
  decision = d;
  strategy_name = s.strategy_name;
  cache_key = build_cache_key sha256 r.model r.messages;
  started = now;
}

-- What the strategy is asked for a request.
abbrev pub asked : {F : Type 0} → (Text → List ℕ) → ChatCompletionRequest F → SelectionInput
asked sha256 r = record {
  estimated_cost = estimate_request_cost r.messages;
  cache_key = build_cache_key sha256 r.model r.messages;
}

module _ {S R F : Type 0} (store : Store S) (g : Rng R) (sha256 : Text → List ℕ) (now : ℕ)
    (s : Server S R F) (r : ChatCompletionRequest F) (valid : validate_chat_request r ≡ none)
    (ready : IsReady s.strategy) where
  selected-Answers :
      (v : Bool)
      → has_healthy_backend s.heap s.strategy ≡ v
      → Answers s.heap
          (backends_of s.strategy)
          v
          (Strategy.select store g now s.heap
            (some s.cache_store)
            s.strategy
            (asked sha256 r)).decision
  selected-Answers v e =
      subst
        (λ v.
          Answers s.heap (backends_of s.strategy) v
            (Strategy.select store g now s.heap (some s.cache_store) s.strategy
              (asked sha256 r)).decision)
        e
        (has_healthy_backend-select store g now s.heap (some s.cache_store) s.strategy
          (asked sha256 r) ready)

  -- A selection that succeeds is a request that is sent.
  pub open_chat-Answers :
      has_healthy_backend s.heap s.strategy ≡ true
      → (d : Decision) × ((open_chat store g sha256 now s post (some r)).1
          ≡ dispatched (pending_of sha256 now s r d))
        × Mem d.backend (backends_of s.strategy)
        × (is_healthy s.heap d.backend ≡ true)
  unfolding accept
  open_chat-Answers up =
      let (d, chosen, member, healthy) = selected-Answers true up in
      (
        d,
        ap (λ o. o.1) (open_chat-accept store g sha256 now s r valid)
            ∙ dispatch_ok now _ r _ _ d chosen,
        member,
        healthy,
      )

  -- A selection that finds no backend is a request that is turned away.
  pub open_chat_unready :
      has_healthy_backend s.heap s.strategy ≡ false
      → (open_chat store g sha256 now s post (some r)).1
        ≡ rejected (fail 503 (codes "no healthy backend available"))
  unfolding accept dispatch
  open_chat_unready down =
      rw (open_chat-accept store g sha256 now s r valid)
        (rw (selected-Answers false down, dispatch) refl)

module _ {S R F : Type 0} (store : Store S) (float : Float64 F) (g : Rng R)
    (sha256 : Text → List ℕ) where
  -- On a server whose strategy has at most 2 ^ 62 backends, its counter of turns below 2 ^ 63 and a
  -- load counter for each backend, where it has those: after a request whose backend failed, the
  -- next valid request is sent to a backend that was healthy and is not the one that failed, if the
  -- strategy's list has such a backend.
  pub open_chat-close_chat_failed :
      (now later b : ℕ) (s : Server S R F) (p : Pending F) (r : ChatCompletionRequest F)
      → validate_chat_request r ≡ none
      → IsReady s.strategy
      → Mem b (backends_of s.strategy)
      → is_healthy s.heap b ≡ true
      → b ≢ p.decision.backend
      → let s' = (close_chat store float now s p none).0 in
        (q : Pending F) × ((open_chat store g sha256 later s' post (some r)).1 ≡ dispatched q)
        × Mem q.decision.backend (backends_of s.strategy)
        × (q.decision.backend ≢ p.decision.backend)
        × (is_healthy s.heap q.decision.backend ≡ true)
  unfolding close_chat settle_chat run_defers
  open_chat-close_chat_failed now later b s p r valid ready member healthy other =
      let s' = (close_chat store float now s p none).0 in
      let up : is_healthy s'.heap b ≡ true =
        healthy_after s.heap p.decision b ∙ ground (arith, healthy, other) in
      let (d, sent, listed, alive) = open_chat-Answers store g sha256 later s' r valid ready (
        has_healthy_backend-any_healthy s'.heap s.strategy
        ∙ any_healthy-here s'.heap (backends_of s.strategy) b member up) in
      let (differs, was) = still_healthy s.heap p.decision d.backend alive in
      (pending_of sha256 later s' r d, sent, listed, differs, was)
