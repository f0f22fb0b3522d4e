-- ===== src/Router/LeastPending.antt =====
-- internal/router/leastpending.go.
pub mod Serves
use infer_flow.Prelude.{ℕ, ◌≡◌, refl, Bool, false, some, List, ◌==◌, if◌then◌else◌, length}
use infer_flow.Int64.{neg64}
use infer_flow.Text.{Text}
use infer_flow.Router.Names.{least_pending_name}
use infer_flow.Router.Heap.{Heap, add_counter, any_healthy}
use infer_flow.Router.Loads.{Loads, Choice, no_loads, set_backends, choose}
use infer_flow.Router.Decision.{SelectionInput, Outcome, ok, no_healthy_backend, panic, Decision}

unfoldable pub new_least_pending : List ℕ → Heap → Heap × Loads
new_least_pending bs h = set_backends bs h no_loads

-- `chosenLoad.Add(1)`, and the decision with the closure that takes it back.
unfoldable pub grant : Heap → Choice → Bool → Heap × Decision
grant h c hit =
    let h' = add_counter c.load 1 h in
    (
      h',
      record {
        backend = c.backend;
        pending_requests = h'.counter c.load;
        pending_cost = 0;
        cache_hit = hit;
        release = some (c.load, neg64 1);
        released = false;
      },
    )

abbrev pub commit : Heap → Outcome Choice → Heap × Outcome Decision
commit h (ok c) = let (h', d) = grant h c false in (h', ok d)
commit h no_healthy_backend = (h, no_healthy_backend)
commit h panic = (h, panic)

unfoldable pub select : Heap → Loads → SelectionInput → Heap × Loads × Outcome Decision
select h s input =
    if length s.backends == 0
    then (h, s, no_healthy_backend)
    else (let (s', chosen) = choose h s in
        let (h', decision) = commit h chosen in (h', s', decision))

unfoldable pub has_healthy_backend : Heap → Loads → Bool
has_healthy_backend h s = any_healthy h s.backends

pub grant-backend : (h : Heap) (c : Choice) (hit : Bool) → (grant h c hit).1.backend ≡ c.backend
unfolding grant
grant-backend h c hit = refl

pub grant-cache_hit : (h : Heap) (c : Choice) (hit : Bool) → (grant h c hit).1.cache_hit ≡ hit
unfolding grant
grant-cache_hit h c hit = refl

-- `Name`.
abbrev pub name : Text
name = least_pending_name
