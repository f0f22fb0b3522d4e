-- ===== src/Server/System/Sound.antt =====
-- The counters of the active strategy stay allocated and apart.
use infer_flow.Prelude.{ℕ, nat_eq, ◌≡◌, List, Option, arith, ◌≤◌}
use infer_flow.Assoc.{lookup}
use infer_flow.Cache.Store.{Store}
use infer_flow.Router.Heap.{Heap}
use infer_flow.Router.Decision.{SelectionInput}
use infer_flow.Router.Loads.{Loads, no_loads, choose}
use infer_flow.Router.Loads.Track.{IsSound}
use infer_flow.Router.Random.{Rng}
use infer_flow.Router.LeastPending
use infer_flow.Router.CostAware
use infer_flow.Router.KvAware
use infer_flow.Router.Strategy.{
  Strategy, round_robin, least_pending, random, kv_aware, cost_aware, select,
}
use infer_flow.Router.Strategy.Release.{SoundLoads}

IsSound-mono :
    (h h' : Heap) (loads : List (ℕ × ℕ)) → h.fresh ≤ h'.fresh → IsSound h loads → IsSound h' loads
IsSound-mono h h' loads le s = record {
  below = λ b c e. omega (arith, s.below b c e);
  injective = s.injective;
}

pub SoundLoads-mono :
    {R : Type 0} (h h' : Heap) (s : Strategy R)
    → h.fresh ≤ h'.fresh
    → SoundLoads h s
    → SoundLoads h' s
SoundLoads-mono h h' (round_robin s) le sound = tt
SoundLoads-mono h h' (least_pending s) le sound = IsSound-mono h h' s.loads le sound
SoundLoads-mono h h' (random s) le sound = tt
SoundLoads-mono h h' (kv_aware s) le sound = IsSound-mono h h' s.loads le sound
SoundLoads-mono h h' (cost_aware s) le sound = IsSound-mono h h' s.loads le sound

pub no_loads-IsSound : (h : Heap) → IsSound h no_loads.loads
unfolding lookup
no_loads-IsSound h = record { below = λ b c e. cc; injective = λ a b c e e'. cc }

-- A selection moves only the counter `next` of its strategy.
least_pending-loads :
    (h : Heap) (s : Loads) (input : SelectionInput)
    → (LeastPending.select h s input).1.loads ≡ s.loads
unfolding LeastPending.select choose
least_pending-loads h s input = ground arith

cost_aware-loads :
    (h : Heap) (s : Loads) (input : SelectionInput) → (CostAware.select h s input).1.loads ≡ s.loads
unfolding CostAware.select choose
cost_aware-loads h s input = ground arith

kv_aware-loads :
    {S : Type 0} (store : Store S) (now : ℕ) (h : Heap) (st : Option S) (s : Loads)
    (input : SelectionInput)
    → (KvAware.select store now h st s input).1.1.loads ≡ s.loads
unfolding KvAware.select KvAware.select_least_pending choose
kv_aware-loads store now h st s input = ground arith

pub select-SoundLoads :
    {S R : Type 0} (store : Store S) (g : Rng R) (now : ℕ) (h : Heap) (st : Option S)
    (s : Strategy R) (input : SelectionInput)
    → SoundLoads h s
    → SoundLoads h (select store g now h st s input).strategy
unfolding select
select-SoundLoads store g now h st (round_robin s) input sound = tt
select-SoundLoads store g now h st (least_pending s) input sound =
    rw (least_pending-loads h s input) sound
select-SoundLoads store g now h st (random s) input sound = tt
select-SoundLoads store g now h st (kv_aware s) input sound =
    rw (kv_aware-loads store now h st s input) sound
select-SoundLoads store g now h st (cost_aware s) input sound =
    rw (cost_aware-loads h s input) sound
