-- ===== src/Router/Decision.antt =====
-- internal/router/strategy.go: what a strategy is asked, and what it answers.
use infer_flow.Prelude.{ℕ, ◌≡◌, Bool, true, false, Option, none, some, arith}
use infer_flow.Text.{Text}
use infer_flow.Router.Heap.{Heap, add_counter}

-- The context of the call is left out: no strategy but `KVAware` passes it on, to the store.
pub record SelectionInput : Type 0 where
  pub estimated_cost : ℕ
  pub cache_key : Text

-- A result with an error; `panic` is an index out of range. `ErrNoHealthyBackend` is the only error.
pub data Outcome {ℓ} (A : Type ℓ) : Type ℓ where
  ok : A → Outcome A
  no_healthy_backend : Outcome A
  panic : Outcome A

-- `release` is the closure: the counter that it holds, and what it adds. `released` is `once`.
pub record Decision : Type 0 where
  pub backend : ℕ
  pub pending_requests : ℕ
  pub pending_cost : ℕ
  pub cache_hit : Bool
  pub release : Option (ℕ × ℕ)
  pub released : Bool

abbrev pub no_release : ℕ → Decision
no_release b = record {
  backend = b;
  pending_requests = 0;
  pending_cost = 0;
  cache_hit = false;
  release = none;
  released = false;
}

abbrev pub run_release : Option (ℕ × ℕ) → Heap → Heap
run_release none h = h
run_release (some (c, d)) h = add_counter c d h

-- `Release`.
unfoldable pub release : Decision → Heap → Decision × Heap
release d h = elim d.released [
  | true ↦ (d, h)
  | false ↦ (record d { released = true }, run_release d.release h)
]

-- Only the first call of `Release` has an effect.
pub release_twice :
    (d : Decision) (h : Heap) → let (d', h') = release d h in release d' h' ≡ (d', h')
unfolding release
release_twice d h = ground arith
