-- ===== src/Server/System/Equipped.antt =====
-- The strategy that the server has is made for its backends.
use mathlib.Core.Path.{subst}
use infer_flow.Prelude.{
  ℕ, ◌≤◌, ◌<◌, ◌≡◌, refl, ◌∙◌, inl, inr, true, List, [], ◌∷◌, Option, none, some, arith, All,
  All-weaken, length, nat_eq, beq_refl, Bool-cases,
}
use infer_flow.Text.{Text, text_beq}
use infer_flow.Assoc.{lookup}
use infer_flow.Int64.{two63}
use infer_flow.Cache.Store.{Store}
use infer_flow.Router.Heap.{Heap}
use infer_flow.Router.Slots.{max_backends}
use infer_flow.Router.Decision.{SelectionInput}
use infer_flow.Router.Random.{Rng, new_random}
use infer_flow.Router.Loads.{Loads, no_loads, set_backends, choose}
use infer_flow.Router.Loads.Track.{contains}
use infer_flow.Router.Loads.Rebuilt.{Fate, set_backends-Rebuilt}
use infer_flow.Router.Loads.Serves.{Covered}
use infer_flow.Router.RoundRobin
use infer_flow.Router.Random
use infer_flow.Router.LeastPending
use infer_flow.Router.CostAware
use infer_flow.Router.KvAware
use infer_flow.Router.Strategy.{
  Strategy, round_robin, least_pending, random, kv_aware, cost_aware, select, backends_of,
  round_robin_name, least_pending_name, random_name, kv_aware_name,
}
use infer_flow.Router.Strategy.Serves.{IsReady}
use infer_flow.Server.State.{make_strategy}
use infer_flow.Server.System.Sound.{no_loads-IsSound}

abbrev pub IsCovered : {R : Type 0} → Strategy R → Type 0
IsCovered (round_robin s) = Unit {0}
IsCovered (least_pending s) = Covered s.loads s.backends
IsCovered (random s) = Unit {0}
IsCovered (kv_aware s) = Covered s.loads s.backends
IsCovered (cost_aware s) = Covered s.loads s.backends

-- How many turns the strategy has counted.
unfoldable pub turns : {R : Type 0} → Strategy R → ℕ
turns (round_robin s) = s.next
turns (least_pending s) = s.next
turns (random s) = 0
turns (kv_aware s) = s.next
turns (cost_aware s) = s.next

pub record IsEquipped {R : Type 0} (bs : List ℕ) (s : Strategy R) : Type 0 where
  pub backends : backends_of s ≡ bs
  pub covered : IsCovered s

pub IsEquipped-IsReady :
    {R : Type 0} (bs : List ℕ) (s : Strategy R)
    → length bs ≤ max_backends
    → turns s < two63
    → IsEquipped bs s
    → IsReady s
unfolding turns
IsEquipped-IsReady bs (round_robin s) fits low q = (rw q.backends fits, low)
IsEquipped-IsReady bs (least_pending s) fits low q = ((rw q.backends fits, low), q.covered)
IsEquipped-IsReady bs (random s) fits low q = tt
IsEquipped-IsReady bs (kv_aware s) fits low q = ((rw q.backends fits, low), q.covered)
IsEquipped-IsReady bs (cost_aware s) fits low q = ((rw q.backends fits, low), q.covered)

-- A selection keeps the list and the map of the strategy.
abbrev IsKept : Loads → Loads → Type 0
IsKept s s' = (s'.backends ≡ s.backends) × (s'.loads ≡ s.loads)

least_pending-IsKept :
    (h : Heap) (s : Loads) (input : SelectionInput) → IsKept s (LeastPending.select h s input).1
unfolding LeastPending.select choose
least_pending-IsKept h s input = (ground arith, ground arith)

cost_aware-IsKept :
    (h : Heap) (s : Loads) (input : SelectionInput) → IsKept s (CostAware.select h s input).1
unfolding CostAware.select choose
cost_aware-IsKept h s input = (ground arith, ground arith)

kv_aware-IsKept :
    {S : Type 0} (store : Store S) (now : ℕ) (h : Heap) (st : Option S) (s : Loads)
    (input : SelectionInput)
    → IsKept s (KvAware.select store now h st s input).1.1
unfolding KvAware.select KvAware.select_least_pending choose
kv_aware-IsKept store now h st s input = (ground arith, ground arith)

round_robin-backends :
    (h : Heap) (s : RoundRobin.RoundRobin) (input : SelectionInput)
    → (RoundRobin.select h s input).0.backends ≡ s.backends
unfolding RoundRobin.select RoundRobin.pick
round_robin-backends h s input = ground arith

random-backends :
    {R : Type 0} (g : Rng R) (h : Heap) (s : Random.Random R) (input : SelectionInput)
    → (Random.select g h s input).0.backends ≡ s.backends
unfolding Random.select
random-backends g h s input = ground arith

Covered-IsKept :
    (s s' : Loads) → IsKept s s' → Covered s.loads s.backends → Covered s'.loads s'.backends
Covered-IsKept s s' (b, l) c = rw (b, l) c

pub select-IsEquipped :
    {S R : Type 0} (store : Store S) (g : Rng R) (now : ℕ) (h : Heap) (st : Option S) (bs : List ℕ)
    (s : Strategy R) (input : SelectionInput)
    → IsEquipped bs s
    → IsEquipped bs (select store g now h st s input).strategy
unfolding select
select-IsEquipped store g now h st bs (round_robin s) input q = record {
  backends = round_robin-backends h s input ∙ q.backends;
  covered = tt;
}
select-IsEquipped store g now h st bs (least_pending s) input q =
    let kept = least_pending-IsKept h s input in
    record {
      backends = kept.0 ∙ q.backends;
      covered = Covered-IsKept s (LeastPending.select h s input).1 kept q.covered;
    }
select-IsEquipped store g now h st bs (random s) input q = record {
  backends = random-backends g h s input ∙ q.backends;
  covered = tt;
}
select-IsEquipped store g now h st bs (kv_aware s) input q =
    let kept = kv_aware-IsKept store now h st s input in
    record {
      backends = kept.0 ∙ q.backends;
      covered = Covered-IsKept s (KvAware.select store now h st s input).1.1 kept q.covered;
    }
select-IsEquipped store g now h st bs (cost_aware s) input q =
    let kept = cost_aware-IsKept h s input in
    record {
      backends = kept.0 ∙ q.backends;
      covered = Covered-IsKept s (CostAware.select h s input).1 kept q.covered;
    }

contains-All : (bs : List ℕ) → All (λ b. contains b bs ≡ true) bs
contains-All [] = tt
contains-All (x ∷ bs) = (
  ground (arith, beq_refl x),
  All-weaken (λ b. contains b bs ≡ true) (λ b. contains b (x ∷ bs) ≡ true) bs (λ b e. ground arith)
      (contains-All bs),
)

set_backends-Covered :
    (bs : List ℕ) (h : Heap)
    → let s' = (set_backends bs h no_loads).1 in (s'.backends ≡ bs) × Covered s'.loads s'.backends
unfolding lookup
set_backends-Covered bs h =
    let rebuilt = set_backends-Rebuilt bs h no_loads (no_loads-IsSound h) in
    let (h', s') = set_backends bs h no_loads in
    (
      rebuilt.backends,
      rw rebuilt.backends (
          All-weaken (λ b. contains b bs ≡ true) _ bs
            (λ b m.
              let fate : Fate h.fresh h' s'.loads b true none =
                subst (λ v. Fate h.fresh h' s'.loads b v none) m (rebuilt.fates b) in
              (fate.0, fate.1))
            (contains-All bs)),
    )

abbrev pub AllEquipped : {R : Type 0} → List ℕ → Option (Heap × Strategy R) → Type 0
AllEquipped bs none = Unit {0}
AllEquipped bs (some (h, s)) = IsEquipped bs s

pub make_strategy-IsEquipped :
    {R : Type 0} (g : Rng R) (name : Text) (bs : List ℕ) (h : Heap)
    → AllEquipped bs (make_strategy g name bs h)
unfolding make_strategy LeastPending.new_least_pending KvAware.new_kv_aware
    RoundRobin.new_round_robin new_random
make_strategy-IsEquipped g name bs h =
    let (equal, covered) = set_backends-Covered bs h in
    elim (Bool-cases (text_beq name round_robin_name)) [
      | inl e ↦ rw e (record { backends = refl; covered = tt })
      | inr e ↦ rw e (elim (Bool-cases (text_beq name least_pending_name)) [
        | inl e ↦ rw e (record { backends = equal; covered = covered })
        | inr e ↦ rw e (elim (Bool-cases (text_beq name random_name)) [
          | inl e ↦ rw e (record { backends = refl; covered = tt })
          | inr e ↦ rw e (elim (Bool-cases (text_beq name kv_aware_name)) [
            | inl e ↦ rw e (record { backends = equal; covered = covered })
            | inr e ↦ rw e tt
          ])
        ])
      ])
    ]
