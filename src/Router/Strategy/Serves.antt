-- ===== src/Router/Strategy/Serves.antt =====
-- Every strategy serves its caller, so that readiness means what it says.
use mathlib.Core.HLevel.{⊥_prop}
use mathlib.Core.Logic.Or
use mathlib.Core.List.{not-mem-nil, eq-or-mem_of_mem-cons}
use infer_flow.Prelude.{
  ℕ, ◌≤◌, ◌<◌, ◌≡◌, refl, sym, Mem, [], ◌∷◌, Bool, true, false, Option, List, length,
}
use infer_flow.Int64.{two63}
use infer_flow.Cache.Store.{Store}
use infer_flow.Router.Heap.{Heap, is_healthy, any_healthy}
use infer_flow.Router.Slots.{max_backends}
use infer_flow.Router.Decision.{SelectionInput, Outcome, ok, no_healthy_backend, panic, Decision}
use infer_flow.Router.Serves.{Serves, NoneHealthy, any_healthy-false, any_healthy_none}
use infer_flow.Router.Loads.Serves.{Covered}
use infer_flow.Router.Random.{Rng}
use infer_flow.Router.Random.Healthy
use infer_flow.Router.Random
use infer_flow.Router.RoundRobin.Order
use infer_flow.Router.LeastPending
use infer_flow.Router.CostAware
use infer_flow.Router.KvAware
use infer_flow.Router.RoundRobin
use infer_flow.Router.Strategy.{
  Strategy, round_robin, least_pending, random, kv_aware, cost_aware, has_healthy_backend,
  backends_of, select,
}

-- A rotating list: not longer than a slice can be, and its counter has not passed 2 ^ 63.
abbrev pub Turns : List ℕ → ℕ → Type 0
Turns bs next = (length bs ≤ max_backends) × (next < two63)

-- What a selection needs of the strategy.
abbrev pub IsReady : {R : Type 0} → Strategy R → Type 0
IsReady (round_robin s) = Turns s.backends s.next
IsReady (least_pending s) = Turns s.backends s.next × Covered s.loads s.backends
IsReady (random s) = Unit {0}
IsReady (kv_aware s) = Turns s.backends s.next × Covered s.loads s.backends
IsReady (cost_aware s) = Turns s.backends s.next × Covered s.loads s.backends

module _ {S R : Type 0} (store : Store S) (g : Rng R) where
  round_robin-Serves :
      (h : Heap) (bs : List ℕ) (o : Outcome ℕ)
      → Serves h bs (λ b. b) o
      → Serves h bs (λ d. d.backend) (RoundRobin.decide o)
  round_robin-Serves h bs (ok b) s = s
  round_robin-Serves h bs no_healthy_backend s = s
  round_robin-Serves h bs panic s = s

  select-Serves :
      (now : ℕ) (h : Heap) (st : Option S) (s : Strategy R) (input : SelectionInput)
      → IsReady s
      → Serves h (backends_of s) (λ d. d.backend) (select store g now h st s input).decision
  unfolding select RoundRobin.select
  select-Serves now h st (round_robin s) input (fits, hn) =
      round_robin-Serves h s.backends (RoundRobin.pick h s).1 (Order.pick-Serves h s fits hn)
  select-Serves now h st (least_pending s) input ((fits, hn), cs) =
      LeastPending.Serves.select-Serves h s input fits hn cs
  select-Serves now h st (random s) input r = Healthy.select-Serves g h s input
  select-Serves now h st (kv_aware s) input ((fits, hn), cs) =
      KvAware.Serves.select-Serves store now h st s input fits hn cs
  select-Serves now h st (cost_aware s) input ((fits, hn), cs) =
      CostAware.Serves.select-Serves h s input fits hn cs

pub has_healthy_backend-any_healthy :
    {R : Type 0} (h : Heap) (s : Strategy R)
    → has_healthy_backend h s ≡ any_healthy h (backends_of s)
unfolding has_healthy_backend RoundRobin.has_healthy_backend LeastPending.has_healthy_backend
    Random.has_healthy_backend KvAware.has_healthy_backend CostAware.has_healthy_backend
has_healthy_backend-any_healthy h (round_robin s) = refl
has_healthy_backend-any_healthy h (least_pending s) = refl
has_healthy_backend-any_healthy h (random s) = refl
has_healthy_backend-any_healthy h (kv_aware s) = refl
has_healthy_backend-any_healthy h (cost_aware s) = refl

-- The result of a selection, given what `HasHealthyBackend` says: a healthy backend of the list, or
-- the error.
abbrev pub Answers : Heap → List ℕ → Bool → Outcome Decision → Type 0
Answers h bs true o =
    (d : Decision) × (o ≡ ok d) × Mem d.backend bs × (is_healthy h d.backend ≡ true)
Answers h bs false o = o ≡ no_healthy_backend

Serves-Answers :
    (h : Heap) (bs : List ℕ) (v : Bool) (o : Outcome Decision)
    → any_healthy h bs ≡ v
    → Serves h bs (λ d. d.backend) o
    → Answers h bs v o
Serves-Answers h bs true (ok d) e s = (d, refl, s.0, s.1)
Serves-Answers h bs true no_healthy_backend e s = absurd (cc (any_healthy_none h bs s))
Serves-Answers h bs false (ok d) e s = absurd (sick bs (any_healthy-false h bs e) s.0)
  where
    sick : (bs : List ℕ) → NoneHealthy h bs → Mem d.backend bs → ⊥
    sick [] n m = not-mem-nil m
    sick (b ∷ bs) (n, ns) m = Or.elim ⊥_prop (eq-or-mem_of_mem-cons m) (λ same. cc) (sick bs ns)
Serves-Answers h bs false no_healthy_backend e s = refl
Serves-Answers h bs v panic e s = absurd s

-- For every strategy: while `HasHealthyBackend` is true a selection succeeds, with a healthy backend
-- of the strategy's list, and while it is false the selection answers the error; it never panics. The
-- condition: the strategy's list is not longer than 2 ^ 62, its counter of turns is below 2 ^ 63, and
-- each backend of the list has a load counter, where the strategy has those.
pub has_healthy_backend-select :
    {S R : Type 0} (store : Store S) (g : Rng R) (now : ℕ) (h : Heap) (st : Option S)
    (s : Strategy R) (input : SelectionInput)
    → IsReady s
    → Answers h (backends_of s) (has_healthy_backend h s) (select store g now h st s input).decision
has_healthy_backend-select store g now h st s input ready =
    Serves-Answers h (backends_of s) (has_healthy_backend h s) _
      (sym (has_healthy_backend-any_healthy h s)) (select-Serves store g now h st s input ready)
