-- ===== src/Router/RoundRobin.antt =====
-- internal/router/roundrobin.go.
pub mod Order
pub mod Fairness
pub mod Progress
pub mod Balance
use infer_flow.Prelude.{
  ℕ, zero, suc, ◌+◌, Bool, true, false, none, some, List, ◌==◌, if◌then◌else◌, length,
}
use infer_flow.Int64.{add64}
use infer_flow.Text.{Text}
use infer_flow.Router.Names.{round_robin_name}
use infer_flow.Router.Heap.{Heap, is_healthy, any_healthy}
use infer_flow.Router.Slots.{start_of, slot}
use infer_flow.Router.Decision.{
  SelectionInput, Outcome, ok, no_healthy_backend, panic, Decision, no_release,
}

pub record RoundRobin : Type 0 where
  pub backends : List ℕ
  pub next : ℕ

unfoldable pub new_round_robin : List ℕ → RoundRobin
new_round_robin bs = record { backends = bs; next = 0 }

unfoldable pub set_backends : List ℕ → RoundRobin → RoundRobin
set_backends bs r = record r { backends = bs }

-- The loop of `Pick`, with `k` rounds left.
unfoldable pub pick_from : Heap → List ℕ → ℕ → ℕ → ℕ → Outcome ℕ
pick_from h bs start zero i = no_healthy_backend
pick_from h bs start (suc k) i = elim (slot bs start i) [
  | none ↦ panic
  | some b ↦ elim (is_healthy h b) [ true ↦ ok b | false ↦ pick_from h bs start k (i + 1) ]
]

unfoldable pub pick : Heap → RoundRobin → RoundRobin × Outcome ℕ
pick h r =
    let n = length r.backends in
    if n == 0
    then (r, no_healthy_backend)
    else (record r { next = add64 r.next 1 }, pick_from h r.backends (start_of r.next n) n 0)

abbrev pub decide : Outcome ℕ → Outcome Decision
decide (ok b) = ok (no_release b)
decide no_healthy_backend = no_healthy_backend
decide panic = panic

unfoldable pub select : Heap → RoundRobin → SelectionInput → RoundRobin × Outcome Decision
select h r input = let (r', picked) = pick h r in (r', decide picked)

unfoldable pub has_healthy_backend : Heap → RoundRobin → Bool
has_healthy_backend h r = any_healthy h r.backends

-- `Name`.
abbrev pub name : Text
name = round_robin_name
