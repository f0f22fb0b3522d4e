-- ===== src/Router/LeastPending/Serves.antt =====
-- A selection by pending requests serves its caller.
use infer_flow.Prelude.{
  ℕ, ◌≤◌, ◌<◌, ◌≡◌, inl, inr, true, List, arith, length, Bool-cases, ◌==◌, nil_of_length,
}
use infer_flow.Int64.{two63}
use infer_flow.Router.Heap.{Heap}
use infer_flow.Router.Slots.{max_backends}
use infer_flow.Router.Decision.{SelectionInput, Outcome, ok, no_healthy_backend, panic}
use infer_flow.Router.Serves.{Serves, NoneHealthy}
use infer_flow.Router.Loads.{Loads, Choice, choose}
use infer_flow.Router.Loads.Serves.{Covered, choose-Serves}
use infer_flow.Router.LeastPending.{grant, commit, select}

pub commit-Serves :
    (h : Heap) (bs : List ℕ) (o : Outcome Choice)
    → Serves h bs (λ c. c.backend) o
    → Serves h bs (λ d. d.backend) (commit h o).1
unfolding grant
commit-Serves h bs (ok c) s = s
commit-Serves h bs no_healthy_backend s = s
commit-Serves h bs panic s = s

pub NoneHealthy-nil : (h : Heap) (bs : List ℕ) → (length bs == 0) ≡ true → NoneHealthy h bs
NoneHealthy-nil h bs e = rw (nil_of_length bs (ground arith)) tt

pub select-Serves :
    (h : Heap) (s : Loads) (input : SelectionInput)
    → length s.backends ≤ max_backends
    → s.next < two63
    → Covered s.loads s.backends
    → Serves h s.backends (λ d. d.backend) (select h s input).2
unfolding select
select-Serves h s input fits hn cs = elim (Bool-cases (length s.backends == 0)) [
  | inl empty ↦ rw empty (NoneHealthy-nil h s.backends empty)
  | inr some_backend ↦
      rw some_backend
        (commit-Serves h s.backends (choose h s).1 (choose-Serves h s (ground arith) fits hn cs))
]
