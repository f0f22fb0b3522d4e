-- ===== src/Router/CostAware/Serves.antt =====
-- A selection by cost serves its caller.
use infer_flow.Prelude.{ℕ, ◌≤◌, ◌<◌, inl, inr, List, arith, length, Bool-cases, ◌==◌}
use infer_flow.Int64.{two63}
use infer_flow.Router.Heap.{Heap}
use infer_flow.Router.Slots.{max_backends}
use infer_flow.Router.Decision.{SelectionInput, Outcome, ok, no_healthy_backend, panic}
use infer_flow.Router.Serves.{Serves}
use infer_flow.Router.Loads.{Loads, Choice, choose}
use infer_flow.Router.Loads.Serves.{Covered, choose-Serves}
use infer_flow.Router.LeastPending.Serves.{NoneHealthy-nil}
use infer_flow.Router.CostAware.{grant_cost, commit_cost, cost_of, select}

commit_cost-Serves :
    (h : Heap) (cost : ℕ) (bs : List ℕ) (o : Outcome Choice)
    → Serves h bs (λ c. c.backend) o
    → Serves h bs (λ d. d.backend) (commit_cost h cost o).1
unfolding grant_cost
commit_cost-Serves h cost bs (ok c) s = s
commit_cost-Serves h cost bs no_healthy_backend s = s
commit_cost-Serves h cost bs panic s = s

pub select-Serves :
    (h : Heap) (s : Loads) (input : SelectionInput)
    → length s.backends ≤ max_backends
    → s.next < two63
    → Covered s.loads s.backends
    → Serves h s.backends (λ d. d.backend) (select h s input).2
unfolding select
select-Serves h s input fits hn cs = elim (Bool-cases (length s.backends == 0)) [
  | inl empty ↦ rw empty (NoneHealthy-nil h s.backends empty)
  | inr some_backend ↦ rw some_backend (
      commit_cost-Serves h (cost_of input) s.backends (choose h s).1
        (choose-Serves h s (ground arith) fits hn cs))
]
