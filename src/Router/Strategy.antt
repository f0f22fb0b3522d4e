-- ===== src/Router/Strategy.antt =====
-- internal/router/strategy.go: the interface `Strategy`, with a constructor for each implementation.
pub mod Serves
pub mod Release
pub mod Backends
pub use infer_flow.Router.Names.{
  round_robin_name, least_pending_name, random_name, kv_aware_name, cost_aware_name,
}
use infer_flow.Prelude.{ℕ, Bool, Option, List}
use infer_flow.Text.{Text}
use infer_flow.Cache.Store.{Store}
use infer_flow.Router.Heap.{Heap}
use infer_flow.Router.Loads.{Loads}
use infer_flow.Router.Loads
use infer_flow.Router.RoundRobin.{RoundRobin}
use infer_flow.Router.RoundRobin
use infer_flow.Router.Random.{Random, Rng}
use infer_flow.Router.Random
use infer_flow.Router.LeastPending
use infer_flow.Router.CostAware
use infer_flow.Router.KvAware
use infer_flow.Router.Decision.{SelectionInput, Outcome, Decision}

pub data Strategy (R : Type 0) : Type 0 where
  round_robin : RoundRobin → Strategy R
  least_pending : Loads → Strategy R
  random : Random R → Strategy R
  kv_aware : Loads → Strategy R
  cost_aware : Loads → Strategy R

module _ {R : Type 0} where
  -- `Name`.
  unfoldable pub name_of : Strategy R → Text
  name_of (round_robin s) = RoundRobin.name
  name_of (least_pending s) = LeastPending.name
  name_of (random s) = Random.name
  name_of (kv_aware s) = KvAware.name
  name_of (cost_aware s) = CostAware.name

  -- `HasHealthyBackend`.
  unfoldable pub has_healthy_backend : Heap → Strategy R → Bool
  has_healthy_backend h (round_robin s) = RoundRobin.has_healthy_backend h s
  has_healthy_backend h (least_pending s) = LeastPending.has_healthy_backend h s
  has_healthy_backend h (random s) = Random.has_healthy_backend h s
  has_healthy_backend h (kv_aware s) = KvAware.has_healthy_backend h s
  has_healthy_backend h (cost_aware s) = CostAware.has_healthy_backend h s

  -- `SetBackends`.
  unfoldable pub set_backends : List ℕ → Heap → Strategy R → Heap × Strategy R
  set_backends bs h (round_robin s) = (h, round_robin (RoundRobin.set_backends bs s))
  set_backends bs h (least_pending s) =
      let (h', s') = Loads.set_backends bs h s in (h', least_pending s')
  set_backends bs h (random s) = (h, random (Random.set_backends bs s))
  set_backends bs h (kv_aware s) = let (h', s') = KvAware.set_backends bs h s in (h', kv_aware s')
  set_backends bs h (cost_aware s) =
      let (h', s') = CostAware.set_backends bs h s in (h', cost_aware s')

  abbrev pub backends_of : Strategy R → List ℕ
  backends_of (round_robin s) = s.backends
  backends_of (least_pending s) = s.backends
  backends_of (random s) = s.backends
  backends_of (kv_aware s) = s.backends
  backends_of (cost_aware s) = s.backends

-- The memory after a selection: the store, the counters and the strategy, with the result.
pub record Selected (S R : Type 0) : Type 0 where
  pub store : Option S
  pub heap : Heap
  pub strategy : Strategy R
  pub decision : Outcome Decision

abbrev of_loads :
    {S R : Type 0}
    → Option S
    → (Loads → Strategy R)
    → Heap × Loads × Outcome Decision
    → Selected S R
of_loads st wrap (h, s, d) = record { store = st; heap = h; strategy = wrap s; decision = d }

module _ {S R : Type 0} (store : Store S) (g : Rng R) where
  -- `Select`, at the clock `now`.
  unfoldable pub select : ℕ → Heap → Option S → Strategy R → SelectionInput → Selected S R
  select now h st (round_robin s) input =
      let (s', d) = RoundRobin.select h s input in
      record { store = st; heap = h; strategy = round_robin s'; decision = d }
  select now h st (least_pending s) input =
      of_loads st least_pending (LeastPending.select h s input)
  select now h st (random s) input =
      let (s', d) = Random.select g h s input in
      record { store = st; heap = h; strategy = random s'; decision = d }
  select now h st (kv_aware s) input =
      let (st', r) = KvAware.select store now h st s input in of_loads st' kv_aware r
  select now h st (cost_aware s) input = of_loads st cost_aware (CostAware.select h s input)
