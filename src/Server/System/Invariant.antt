-- ===== src/Server/System/Invariant.antt =====
-- What holds of every state that the running server reaches.
use infer_flow.Prelude.{
  ℕ, nat_eq, suc, ◌-◌, ◌/◌, ◌%◌, ◌≡◌, ap, ◌∙◌, inl, inr, List, ◌∷◌, ◌++◌, Option, none, some, arith,
  length, Option-cases,
}
use infer_flow.Text.{Text}
use infer_flow.Int64.{two64, add64, sub64}
use infer_flow.Cache.Store.{Store}
use infer_flow.Metrics.{Float64, record_latency, inc_requests_total, dec_in_flight}
use infer_flow.Proxy.{ChatCompletionRequest, ChatCompletionResponse}
use infer_flow.Router.Heap.{Heap}
use infer_flow.Router.Decision.{
  SelectionInput, Decision, Outcome, ok, no_healthy_backend, panic, release,
}
use infer_flow.Router.Random.{Rng}
use infer_flow.Router.Strategy.{select}
use infer_flow.Router.Strategy.Release.{SoundLoads, Charges, select-Charges}
use infer_flow.Server.Request.{validate_chat_request, estimate_request_cost, build_cache_key}
use infer_flow.Server.State.{Server}
use infer_flow.Server.Chat.{
  Method, get, post, put, options, other, Pending, dispatch, accept, open_chat, close_chat,
  settle_chat, run_defers,
}
use infer_flow.Server.System.{System, enter, closed}
use infer_flow.Server.System.Due.{length-middle}
use infer_flow.Server.System.Balance.{IsBalanced, IsBalanced-charge, IsBalanced-release}
use infer_flow.Server.System.Sound.{SoundLoads-mono, select-SoundLoads}
use infer_flow.Server.System.Settle.{
  Charges-fresh, release-fresh, record_selection-in_flight, record_latency-in_flight,
  settle_chat-Settled,
}

-- The load counters, the counters of the strategy and the gauge of requests in flight agree with the
-- requests that wait for a backend.
pub record IsConsistent {S R F : Type 0} (w : System S R F) : Type 0 where
  pub balanced : IsBalanced w.server.heap w.active
  pub sound : SoundLoads w.server.heap w.server.strategy
  pub gauge : w.server.metrics.in_flight ≡ length w.active % two64

gauge_up : (m n : ℕ) → m ≡ n % two64 → add64 m 1 ≡ suc n % two64
unfolding add64
gauge_up m n e = omega arith

gauge_down : (m n : ℕ) → m ≡ suc n % two64 → sub64 m 1 ≡ n % two64
unfolding sub64
gauge_down m n e = omega arith

module _ {S R F : Type 0} where
  dispatch-IsConsistent :
      (now : ℕ) (h : Heap) (s : Server S R F) (r : ChatCompletionRequest F) (key : Text)
      (o : Outcome Decision) (ps : List (Pending F))
      → IsBalanced h ps
      → Charges h s.heap o
      → SoundLoads s.heap s.strategy
      → s.metrics.in_flight ≡ length ps % two64
      → let (s', result) = dispatch now s r key o in
        IsConsistent (record { server = s'; active = enter result ps })
  unfolding dispatch
  dispatch-IsConsistent now h s r key (ok d) ps b c sound gauge = record {
    balanced = IsBalanced-charge h s.heap _ ps b c;
    sound = sound;
    gauge =
        record_selection-in_flight s.strategy_name (s.heap.backend d.backend).name d.cache_hit
          s.metrics
        ∙ gauge_up s.metrics.in_flight (length ps) gauge;
  }
  dispatch-IsConsistent now h s r key no_healthy_backend ps b c sound gauge = record {
    balanced = rw c b;
    sound = sound;
    gauge = gauge;
  }
  dispatch-IsConsistent now h s r key panic ps b c sound gauge = record {
    balanced = rw c b;
    sound = sound;
    gauge = gauge;
  }

module _ {S R F : Type 0} (store : Store S) (g : Rng R) (sha256 : Text → List ℕ) where
  accept-IsConsistent :
      (now : ℕ) (w : System S R F) (r : ChatCompletionRequest F)
      → IsConsistent w
      → let (s', result) = accept store g sha256 now w.server r in
        IsConsistent (record { server = s'; active = enter result w.active })
  unfolding accept inc_requests_total
  accept-IsConsistent now w r c =
      let s = w.server in
      let input : SelectionInput = record {
        estimated_cost = estimate_request_cost r.messages;
        cache_key = build_cache_key sha256 r.model r.messages;
      } in
      let selected = select store g now s.heap (some s.cache_store) s.strategy input in
      let charged =
        select-Charges store g now s.heap (some s.cache_store) s.strategy input c.sound in
      dispatch-IsConsistent now s.heap _ r _ selected.decision w.active c.balanced charged
        (SoundLoads-mono s.heap selected.heap selected.strategy
          (omega (arith, Charges-fresh s.heap selected.heap selected.decision charged))
          (select-SoundLoads store g now s.heap (some s.cache_store) s.strategy input c.sound))
        c.gauge

  pub opened-IsConsistent :
      (now : ℕ) (w : System S R F) (method : Method) (body : Option (ChatCompletionRequest F))
      → IsConsistent w
      → let (s', result) = open_chat store g sha256 now w.server method body in
        IsConsistent (record { server = s'; active = enter result w.active })
  unfolding open_chat
  opened-IsConsistent now w post none c = c
  opened-IsConsistent now w post (some r) c = elim (Option-cases (validate_chat_request r)) [
    | inl e ↦ rw (e, open_chat) (accept-IsConsistent now w r c)
    | inr (error, e) ↦ rw (e, open_chat) c
  ]
  opened-IsConsistent now w get body c = c
  opened-IsConsistent now w put body c = c
  opened-IsConsistent now w options body c = c
  opened-IsConsistent now w other body c = c

module _ {S R F : Type 0} (store : Store S) (float : Float64 F) where
  pub closed-IsConsistent :
      (now : ℕ) (answer : Option ChatCompletionResponse) (p : Pending F)
      (before after : List (Pending F)) (w : System S R F)
      → w.active ≡ before ++ p ∷ after
      → IsConsistent w
      → IsConsistent (closed store float now answer p (before ++ after) w)
  unfolding close_chat run_defers dec_in_flight
  closed-IsConsistent now answer p before after w e c =
      let s = w.server in
      let name = (s.heap.backend p.decision.backend).name in
      let timed = record s {
        metrics =
            record_latency float name (float.of_int64 ((now - p.started) / 1000000)) s.metrics;
      } in
      let s' = (settle_chat store now timed p answer).0 in
      let kept = settle_chat-Settled store now timed p answer in
      record {
        balanced =
            IsBalanced-release s'.heap p before after
              (kept.balanced (before ++ p ∷ after) (rw (← e) c.balanced));
        sound =
            SoundLoads-mono s.heap (release p.decision s'.heap).1 s'.strategy
              (omega (arith, release-fresh p.decision s'.heap, kept.fresh))
              (rw kept.strategy c.sound);
        gauge = gauge_down s'.metrics.in_flight (length (before ++ after)) (
            kept.in_flight
            ∙ record_latency-in_flight float name _ s.metrics
            ∙ c.gauge
            ∙ ap (λ n. n % two64) (ap length e ∙ length-middle before after p));
      }
