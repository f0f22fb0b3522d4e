-- ===== src/Router/Loads.antt =====
-- What `LeastPending`, `KVAware` and `CostAware` share: a load counter for each backend, and the
-- choice of the backend with the least load. The source writes these parts out in each of
-- internal/router/leastpending.go, kvaware.go and costaware.go.
pub mod Chosen
pub mod Least
pub mod Track
pub mod Rebuilt
pub mod Serves
pub mod Tracked
use infer_flow.Prelude.{
  ℕ, nat_eq, zero, suc, ◌+◌, Option, none, some, List, [], ◌∷◌, if◌then◌else◌, length,
}
use infer_flow.Assoc.{lookup, insert}
use infer_flow.Int64.{add64, slt64}
use infer_flow.Router.Heap.{Heap, is_healthy, new_counter}
use infer_flow.Router.Slots.{start_of, slot}
use infer_flow.Router.Decision.{Outcome, ok, no_healthy_backend, panic}

-- `loads` maps a backend to the address of its counter.
pub record Loads : Type 0 where
  pub backends : List ℕ
  pub next : ℕ
  pub loads : List (ℕ × ℕ)

abbrev pub no_loads : Loads
no_loads = record { backends = []; next = 0; loads = [] }

-- The loop of `SetBackends`.
unfoldable pub track : Heap → List (ℕ × ℕ) → List ℕ → List (ℕ × ℕ) → Heap × List (ℕ × ℕ)
track h old [] updated = (h, updated)
track h old (b ∷ bs) updated = elim (lookup b old) [
  | some existing ↦ track h old bs (insert b existing updated)
  | none ↦ track (new_counter h) old bs (insert b h.fresh updated)
]

unfoldable pub set_backends : List ℕ → Heap → Loads → Heap × Loads
set_backends bs h s =
    let (h', updated) = track h s.loads bs [] in (h', record s { backends = bs; loads = updated })

-- `chosen`, `chosenLoad` and `minPending`.
pub record Choice : Type 0 where
  pub backend : ℕ
  pub load : ℕ
  pub pending : ℕ

consider_load : Heap → ℕ → Option ℕ → Option Choice → Option Choice
consider_load h b none best = best
consider_load h b (some c) none = some (record { backend = b; load = c; pending = h.counter c })
consider_load h b (some c) (some best) =
    if slt64 (h.counter c) best.pending
    then some (record { backend = b; load = c; pending = h.counter c })
    else some best

-- The body of the loop.
unfoldable pub consider : Heap → List (ℕ × ℕ) → ℕ → Option Choice → Option Choice
unfolding consider_load
consider h loads b best = if is_healthy h b then consider_load h b (lookup b loads) best else best

-- The loop, with `k` rounds left.
unfoldable pub scan :
    Heap → List (ℕ × ℕ) → List ℕ → ℕ → ℕ → ℕ → Option Choice → Outcome (Option Choice)
scan h loads bs start zero i best = ok best
scan h loads bs start (suc k) i best = elim (slot bs start i) [
  | none ↦ panic
  | some b ↦ scan h loads bs start k (i + 1) (consider h loads b best)
]

-- The test for `chosen == nil` behind the loop.
abbrev pub settle : Outcome (Option Choice) → Outcome Choice
settle (ok none) = no_healthy_backend
settle (ok (some c)) = ok c
settle no_healthy_backend = no_healthy_backend
settle panic = panic

-- The choice: `next` moves on, and the loop begins at the backend whose turn it is.
unfoldable pub choose : Heap → Loads → Loads × Outcome Choice
choose h s =
    let n = length s.backends in
    (
      record s { next = add64 s.next 1 },
      settle (scan h s.loads s.backends (start_of s.next n) n 0 none),
    )
