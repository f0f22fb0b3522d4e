-- ===== src/Server/Handle/Parts.antt =====
-- What the two halves of the handler do to the health of the backends and to the count of errors.
use infer_flow.Prelude.{
  ℕ, nat_eq, ◌≡◌, refl, ap, ◌∙◌, inl, inr, Bool, ◌||◌, List, none, some, arith, Bool-cases,
}
use infer_flow.Text.{Text, is_empty}
use infer_flow.Cache.Store.{Store}
use infer_flow.Int64.{add64}
use infer_flow.Metrics.{
  Metrics, Float64, inc_in_flight, dec_in_flight, inc_requests_total, inc_backend_errors,
  inc_kv_cache_hit, inc_kv_cache_miss, record_strategy, record_backend, record_latency,
}
use infer_flow.Proxy.{ChatCompletionRequest, ChatCompletionResponse}
use infer_flow.Router.Decision.{Outcome, ok, no_healthy_backend, panic, Decision}
use infer_flow.Router.Random.{Rng}
use infer_flow.Router.Strategy.Backends.{select-backend}
use infer_flow.Server.Request.{validate_chat_request}
use infer_flow.Server.State.{Server}
use infer_flow.Server.Chat.{
  post, Pending, dispatch, accept, open_chat, close_chat, run_defers, settle_chat, record_affinity,
  record_selection,
}
use infer_flow.Server.Affinity.{open_chat-accept, release-backend}

record_selection-backend_errors :
    {F : Type 0} (strategy backend : Text) (hit : Bool) (m : Metrics F)
    → (record_selection strategy backend hit m).backend_errors ≡ m.backend_errors
unfolding record_selection inc_in_flight inc_kv_cache_hit inc_kv_cache_miss record_strategy
    record_backend
record_selection-backend_errors strategy backend hit m = ground arith

record_latency-backend_errors :
    {F : Type 0} (float : Float64 F) (name : Text) (ms : F) (m : Metrics F)
    → (record_latency float name ms m).backend_errors ≡ m.backend_errors
unfolding record_latency
record_latency-backend_errors float name ms m = ground arith

-- The backends and the errors so far are the same.
pub record SameHealth {S R F : Type 0} (s s' : Server S R F) : Type 0 where
  pub backends : s'.heap.backend ≡ s.heap.backend
  pub errors : s'.metrics.backend_errors ≡ s.metrics.backend_errors

module _ {S R F : Type 0} where
  dispatch-SameHealth :
      (now : ℕ) (s : Server S R F) (r : ChatCompletionRequest F) (key : Text) (o : Outcome Decision)
      → SameHealth s (dispatch now s r key o).0
  unfolding dispatch
  dispatch-SameHealth now s r key (ok d) = record {
    backends = refl;
    errors = record_selection-backend_errors _ _ _ s.metrics;
  }
  dispatch-SameHealth now s r key no_healthy_backend = record { backends = refl; errors = refl }
  dispatch-SameHealth now s r key panic = record { backends = refl; errors = refl }

module _ {S R F : Type 0} (store : Store S) (g : Rng R) (sha256 : Text → List ℕ) where
  pub open_chat-SameHealth :
      (now : ℕ) (s : Server S R F) (r : ChatCompletionRequest F)
      → validate_chat_request r ≡ none
      → SameHealth s (open_chat store g sha256 now s post (some r)).0
  unfolding accept inc_requests_total
  open_chat-SameHealth now s r valid = rw (open_chat-accept store g sha256 now s r valid) (
      let same = dispatch-SameHealth now _ r _ _ in
      record {
        backends =
            same.backends ∙ select-backend store g now s.heap (some s.cache_store) s.strategy _;
        errors = same.errors;
      })

module _ {S R F : Type 0} (store : Store S) (float : Float64 F) where
  pub close_chat-SameHealth :
      (later : ℕ) (s : Server S R F) (p : Pending F) (c : ChatCompletionResponse)
      → SameHealth s (close_chat store float later s p (some c)).0
  unfolding close_chat settle_chat run_defers record_affinity dec_in_flight
  close_chat-SameHealth later s p c =
      elim (Bool-cases
        (is_empty p.cache_key || is_empty (s.heap.backend p.decision.backend).name)) [
          | inl e ↦ rw e (record {
            backends = release-backend p.decision s.heap;
            errors = record_latency-backend_errors float _ _ s.metrics;
          })
          | inr e ↦ rw e (record {
            backends = release-backend p.decision s.heap;
            errors = record_latency-backend_errors float _ _ s.metrics;
          })
        ]

  pub close_chat_failed-backend_errors :
      (later : ℕ) (s : Server S R F) (p : Pending F)
      → (close_chat store float later s p none).0.metrics.backend_errors
        ≡ add64 s.metrics.backend_errors 1
  unfolding close_chat settle_chat run_defers dec_in_flight inc_backend_errors
  close_chat_failed-backend_errors later s p =
      ap (λ n. add64 n 1) (record_latency-backend_errors float _ _ s.metrics)
