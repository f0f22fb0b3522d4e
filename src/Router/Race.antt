-- ===== src/Router/Race.antt =====
-- internal/router/leastpending.go and internal/router/costaware.go: `Select` and its releases as
-- goroutines beside each other, where a step is one round of the loop or one atomic operation on a
-- counter. The list of backends and the map stay as they are: the constructors call `SetBackends` before
-- anyone selects.
pub mod Count
pub mod Idle
mod Tests
use infer_flow.Prelude.{ℕ, ◌+◌, ◌<◌, ◌≡◌, Bool, List, ◌∷◌, ◌++◌, Option, none, some, length}
use infer_flow.Int64.{add64, neg64}
use infer_flow.Router.Heap.{Heap, add_counter, set_healthy}
use infer_flow.Router.Slots.{start_of, slot}
use infer_flow.Router.Decision.{SelectionInput}
use infer_flow.Router.Loads.{Loads, Choice, consider}

-- Where a goroutine stands: in the loop, with the cost of its request, the first slot, the index and
-- the best choice so far; behind its `chosenLoad.Add(cost)`, with the backend, the counter and the cost
-- that it holds; or at its end.
pub data Phase : Type 0 where
  looking : ℕ → ℕ → ℕ → Option Choice → Phase
  holding : ℕ → ℕ → ℕ → Phase
  stopped : Phase

-- `next` is the strategy's counter of turns.
pub record Race : Type 0 where
  pub heap : Heap
  pub next : ℕ
  pub threads : List Phase

-- `cost` is what a request adds to the counter of its backend: 1 for `LeastPending`.
module _ (cost : SelectionInput → ℕ) (s : Loads) where
  pub data Step (w : Race) : Race → Type 0 where
    -- `s.next.Add(1)` of a new call, for which there are backends.
    enters :
        (input : SelectionInput)
        → 0 < length s.backends
        → Step w (record w {
          next = add64 w.next 1;
          threads = looking (cost input) (start_of w.next (length s.backends)) 0 none ∷ w.threads;
        })
    -- A round of the loop.
    looks :
        (before after : List Phase) (a start i b : ℕ) (best : Option Choice)
        → w.threads ≡ before ++ looking a start i best ∷ after
        → i < length s.backends
        → slot s.backends start i ≡ some b
        → Step w (record w {
          threads = before ++ looking a start (i + 1) (consider w.heap s.loads b best) ∷ after;
        })
    -- An index out of range.
    panics :
        (before after : List Phase) (a start i : ℕ) (best : Option Choice)
        → w.threads ≡ before ++ looking a start i best ∷ after
        → i < length s.backends
        → slot s.backends start i ≡ none
        → Step w (record w { threads = before ++ stopped ∷ after })
    -- `ErrNoHealthyBackend`.
    fails :
        (before after : List Phase) (a start : ℕ)
        → w.threads ≡ before ++ looking a start (length s.backends) none ∷ after
        → Step w (record w { threads = before ++ stopped ∷ after })
    -- `chosenLoad.Add(cost)`.
    adds :
        (before after : List Phase) (a start : ℕ) (c : Choice)
        → w.threads ≡ before ++ looking a start (length s.backends) (some c) ∷ after
        → Step w (record w {
          heap = add_counter c.load a w.heap;
          threads = before ++ holding c.backend c.load a ∷ after;
        })
    -- `chosenLoad.Add(-cost)` of the release.
    releases :
        (before after : List Phase) (b c a : ℕ)
        → w.threads ≡ before ++ holding b c a ∷ after
        → Step w (record w {
          heap = add_counter c (neg64 a) w.heap;
          threads = before ++ stopped ∷ after;
        })
    -- A health check, or a request that fails.
    marks : (b : ℕ) (healthy : Bool) → Step w (record w { heap = set_healthy b healthy w.heap })

  pub data Run (w : Race) : Race → Type 0 where
    here : Run w w
    next : {v u : Race} → Run w v → Step v u → Run w u
