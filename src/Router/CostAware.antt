-- ===== src/Router/CostAware.antt =====
-- internal/router/costaware.go. The server does not offer this strategy: `normalizeStrategyName`
-- refuses its name.
pub mod Serves
use infer_flow.Prelude.{ℕ, Bool, false, some, List, ◌==◌, if◌then◌else◌, length}
use infer_flow.Int64.{neg64, slt64}
use infer_flow.Text.{Text}
use infer_flow.Router.Names.{cost_aware_name}
use infer_flow.Router.Heap.{Heap, add_counter, any_healthy}
use infer_flow.Router.Loads.{Loads, Choice, no_loads, choose}
use infer_flow.Router.Loads
use infer_flow.Router.Decision.{SelectionInput, Outcome, ok, no_healthy_backend, panic, Decision}

-- The fields, which are those of `LeastPending`.
abbrev pub CostAware : Type 0
CostAware = Loads

-- `SetBackends`, the same code as that of `LeastPending`.
abbrev pub set_backends : List ℕ → Heap → CostAware → Heap × CostAware
set_backends bs h s = Loads.set_backends bs h s

unfoldable pub new_cost_aware : List ℕ → Heap → Heap × Loads
new_cost_aware bs h = set_backends bs h no_loads

-- `cost` is at least 1.
unfoldable pub cost_of : SelectionInput → ℕ
cost_of input = if slt64 input.estimated_cost 1 then 1 else input.estimated_cost

-- `chosenLoad.Add(cost)`, and the decision with the closure that takes it back.
unfoldable pub grant_cost : Heap → Choice → ℕ → Heap × Decision
grant_cost h c cost =
    let h' = add_counter c.load cost h in
    (
      h',
      record {
        backend = c.backend;
        pending_requests = 0;
        pending_cost = h'.counter c.load;
        cache_hit = false;
        release = some (c.load, neg64 cost);
        released = false;
      },
    )

abbrev pub commit_cost : Heap → ℕ → Outcome Choice → Heap × Outcome Decision
commit_cost h cost (ok c) = let (h', d) = grant_cost h c cost in (h', ok d)
commit_cost h cost no_healthy_backend = (h, no_healthy_backend)
commit_cost h cost panic = (h, panic)

unfoldable pub select : Heap → Loads → SelectionInput → Heap × Loads × Outcome Decision
select h s input =
    if length s.backends == 0
    then (h, s, no_healthy_backend)
    else (let (s', chosen) = choose h s in
        let (h', decision) = commit_cost h (cost_of input) chosen in (h', s', decision))

unfoldable pub has_healthy_backend : Heap → Loads → Bool
has_healthy_backend h s = any_healthy h s.backends

-- `Name`.
abbrev pub name : Text
name = cost_aware_name
