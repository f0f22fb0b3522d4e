-- ===== src/Server/System/Settle.antt =====
-- What the parts of a handler leave alone.
use infer_flow.Prelude.{
  ℕ, ◌≡◌, refl, Bool, false, List, Option, none, some, arith, inl, inr, Bool-cases, ◌||◌,
}
use infer_flow.Text.{Text, is_empty}
use infer_flow.Int64.{add64}
use infer_flow.Cache.Store.{Store}
use infer_flow.Proxy.{ChatCompletionResponse}
use infer_flow.Metrics.{
  Metrics, Float64, record_strategy, record_backend, record_latency, inc_in_flight,
  inc_kv_cache_hit, inc_kv_cache_miss, inc_backend_errors,
}
use infer_flow.Router.Heap.{Heap, add_counter, set_healthy}
use infer_flow.Router.Decision.{Decision, release, Outcome, ok, no_healthy_backend, panic}
use infer_flow.Router.Strategy.Release.{Charges, Charge}
use infer_flow.Server.State.{Server}
use infer_flow.Server.Chat.{Pending, record_selection, record_affinity, settle_chat}
use infer_flow.Server.System.Balance.{IsBalanced, IsBalanced-set_healthy}

pub Charges-fresh : (h h' : Heap) (o : Outcome Decision) → Charges h h' o → h'.fresh ≡ h.fresh
unfolding add_counter
Charges-fresh h h' (ok d) (u, charged) = go d.release charged
  where
    go : (r : Option (ℕ × ℕ)) → Charge h h' r → h'.fresh ≡ h.fresh
    go none e = rw e
    go (some (c, e)) (below, (n, back, grown)) = rw grown
Charges-fresh h h' no_healthy_backend e = rw e
Charges-fresh h h' panic e = rw e

pub release-fresh : (d : Decision) (h : Heap) → (release d h).1.fresh ≡ h.fresh
unfolding release add_counter
release-fresh d h = ground arith

pub record_selection-in_flight :
    {F : Type 0} (strategy backend : Text) (hit : Bool) (m : Metrics F)
    → (record_selection strategy backend hit m).in_flight ≡ add64 m.in_flight 1
unfolding record_selection record_backend record_strategy inc_in_flight inc_kv_cache_hit
    inc_kv_cache_miss
record_selection-in_flight strategy backend hit m = ground arith

pub record_latency-in_flight :
    {F : Type 0} (float : Float64 F) (name : Text) (ms : F) (m : Metrics F)
    → (record_latency float name ms m).in_flight ≡ m.in_flight
unfolding record_latency
record_latency-in_flight float name ms m = ground arith

-- The handler's own part after the answer keeps the counters, the strategy and the gauge.
pub record Settled {S R F : Type 0} (s s' : Server S R F) : Type 0 where
  pub balanced : (ps : List (Pending F)) → IsBalanced s.heap ps → IsBalanced s'.heap ps
  pub fresh : s'.heap.fresh ≡ s.heap.fresh
  pub strategy : s'.strategy ≡ s.strategy
  pub in_flight : s'.metrics.in_flight ≡ s.metrics.in_flight

module _ {S R F : Type 0} (store : Store S) where
  record_affinity-Settled :
      (now : ℕ) (key backend : Text) (s : Server S R F)
      → Settled s (record_affinity store now key backend s)
  unfolding record_affinity
  record_affinity-Settled now key backend s = elim (Bool-cases (is_empty key || is_empty backend)) [
    | inl e ↦
        rw e (record { balanced = λ ps b. b; fresh = refl; strategy = refl; in_flight = refl })
    | inr e ↦
        rw e (record { balanced = λ ps b. b; fresh = refl; strategy = refl; in_flight = refl })
  ]

  pub settle_chat-Settled :
      (now : ℕ) (s : Server S R F) (p : Pending F) (answer : Option ChatCompletionResponse)
      → Settled s (settle_chat store now s p answer).0
  unfolding settle_chat
  settle_chat-Settled now s p none = record {
    balanced = λ ps b. IsBalanced-set_healthy s.heap p.decision.backend false ps b;
    fresh = unfold set_healthy in refl;
    strategy = refl;
    in_flight = unfold inc_backend_errors in refl;
  }
  settle_chat-Settled now s p (some response) =
      record_affinity-Settled now p.cache_key (s.heap.backend p.decision.backend).name s
