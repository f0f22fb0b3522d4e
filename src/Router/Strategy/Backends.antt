-- ===== src/Router/Strategy/Backends.antt =====
-- No selection and no `SetBackends` changes a backend: they move load counters alone.
use infer_flow.Prelude.{
  ℕ, nat_eq, ◌==◌, length, ◌≡◌, refl, inl, inr, List, [], ◌∷◌, Option, none, some, Bool-cases,
  Option-cases,
}
use infer_flow.Assoc.{lookup}
use infer_flow.Cache.Store.{Store}
use infer_flow.Router.Heap.{Heap, add_counter, new_counter}
use infer_flow.Router.Decision.{SelectionInput, Outcome, ok, no_healthy_backend, panic}
use infer_flow.Router.Random.{Rng}
use infer_flow.Router.Loads.{Loads, Choice, set_backends, track}
use infer_flow.Router.LeastPending
use infer_flow.Router.LeastPending.{grant, commit}
use infer_flow.Router.CostAware
use infer_flow.Router.CostAware.{grant_cost, commit_cost}
use infer_flow.Router.KvAware
use infer_flow.Router.Strategy.{
  Strategy, round_robin, least_pending, random, kv_aware, cost_aware, select,
}

commit-backend : (h : Heap) (o : Outcome Choice) → (commit h o).0.backend ≡ h.backend
unfolding grant add_counter
commit-backend h (ok c) = refl
commit-backend h no_healthy_backend = refl
commit-backend h panic = refl

commit_cost-backend :
    (h : Heap) (cost : ℕ) (o : Outcome Choice) → (commit_cost h cost o).0.backend ≡ h.backend
unfolding grant_cost add_counter
commit_cost-backend h cost (ok c) = refl
commit_cost-backend h cost no_healthy_backend = refl
commit_cost-backend h cost panic = refl

hit_or_least-backend :
    (h : Heap) (s : Loads) (o : Option Choice) → (KvAware.hit_or_least h s o).0.backend ≡ h.backend
unfolding grant add_counter KvAware.select_least_pending
hit_or_least-backend h s (some c) = refl
hit_or_least-backend h s none = commit-backend h _

least_pending-backend :
    (h : Heap) (s : Loads) (input : SelectionInput)
    → (LeastPending.select h s input).0.backend ≡ h.backend
unfolding LeastPending.select
least_pending-backend h s input = elim (Bool-cases (length s.backends == 0)) [
  | inl e ↦ rw e refl
  | inr e ↦ rw e (commit-backend h _)
]

cost_aware-backend :
    (h : Heap) (s : Loads) (input : SelectionInput)
    → (CostAware.select h s input).0.backend ≡ h.backend
unfolding CostAware.select
cost_aware-backend h s input = elim (Bool-cases (length s.backends == 0)) [
  | inl e ↦ rw e refl
  | inr e ↦ rw e (commit_cost-backend h _ _)
]

kv_aware-backend :
    {S : Type 0} (store : Store S) (now : ℕ) (h : Heap) (st : Option S) (s : Loads)
    (input : SelectionInput)
    → (KvAware.select store now h st s input).1.0.backend ≡ h.backend
unfolding KvAware.select
kv_aware-backend store now h st s input = elim (Bool-cases (length s.backends == 0)) [
  | inl e ↦ rw e refl
  | inr e ↦ rw e (hit_or_least-backend h s _)
]

pub select-backend :
    {S R : Type 0} (store : Store S) (g : Rng R) (now : ℕ) (h : Heap) (st : Option S)
    (s : Strategy R) (input : SelectionInput)
    → (select store g now h st s input).heap.backend ≡ h.backend
unfolding select
select-backend store g now h st (round_robin s) input = refl
select-backend store g now h st (least_pending s) input = least_pending-backend h s input
select-backend store g now h st (random s) input = refl
select-backend store g now h st (kv_aware s) input = kv_aware-backend store now h st s input
select-backend store g now h st (cost_aware s) input = cost_aware-backend h s input

track-backend :
    (h : Heap) (old : List (ℕ × ℕ)) (bs : List ℕ) (updated : List (ℕ × ℕ))
    → (track h old bs updated).0.backend ≡ h.backend
unfolding track new_counter
track-backend h old [] updated = refl
track-backend h old (b ∷ bs) updated = elim (Option-cases (lookup b old)) [
  | inl e ↦ rw (e, track) (track-backend (new_counter h) old bs _)
  | inr (c, e) ↦ rw (e, track) (track-backend h old bs _)
]

pub set_backends-backend :
    (bs : List ℕ) (h : Heap) (s : Loads) → (set_backends bs h s).0.backend ≡ h.backend
unfolding set_backends
set_backends-backend bs h s = track-backend h s.loads bs []
