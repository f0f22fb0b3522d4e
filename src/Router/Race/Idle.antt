-- ===== src/Router/Race/Idle.antt =====
-- When a load counter of `CostAware` is zero.
use infer_flow.Prelude.{
  ℕ, nat_eq, ◌≤◌, ◌<◌, ◌≡◌, ◌≢◌, ◌↔◌, refl, List, [], ◌∷◌, ◌++◌, All, arith, length, none, some,
}
use infer_flow.Int64.{two64, slt64}
use infer_flow.Router.Heap.{Heap}
use infer_flow.Router.Decision.{SelectionInput}
use infer_flow.Router.Loads.{Loads}
use infer_flow.Router.CostAware.{cost_of}
use infer_flow.Router.Race.{
  Phase, looking, holding, stopped, Race, Step, enters, looks, panics, fails, adds, releases, marks,
  Run, here, next,
}
use infer_flow.Router.Race.Count.{holders, Run-holders}

-- A request costs at least one, also one whose estimate is zero or negative.
cost_of_positive : (input : SelectionInput) → 1 ≤ cost_of input
unfolding cost_of slt64
cost_of_positive input = ground arith

-- What a goroutine adds, or has added, is at least one.
abbrev HasCost : Phase → Type 0
HasCost (looking a start i best) = 1 ≤ a
HasCost (holding b c a) = 1 ≤ a
HasCost stopped = Unit {0}

-- A goroutine does not hold the counter.
abbrev pub IsAway : ℕ → Phase → Type 0
IsAway c (looking a start i best) = Unit {0}
IsAway c (holding b k a) = k ≢ c
IsAway c stopped = Unit {0}

swapped :
    (before after : List Phase) (t t' : Phase)
    → (HasCost t → HasCost t')
    → All HasCost (before ++ t ∷ after)
    → All HasCost (before ++ t' ∷ after)
swapped [] after t t' f (h, hs) = (f h, hs)
swapped (u ∷ us) after t t' f (h, hs) = (h, swapped us after t t' f hs)

module _ {s : Loads} where
  Step-HasCost : {w v : Race} → Step cost_of s w v → All HasCost w.threads → All HasCost v.threads
  Step-HasCost (enters input some_backend) k = (cost_of_positive input, k)
  Step-HasCost (looks before after a start i b best at lt found) k =
      swapped before after (looking a start i best) _ (λ h. h) (rw (← at) k)
  Step-HasCost (panics before after a start i best at lt out) k =
      swapped before after (looking a start i best) _ (λ h. tt) (rw (← at) k)
  Step-HasCost (fails before after a start at) k =
      swapped before after (looking a start (length s.backends) none) stopped (λ h. tt)
        (rw (← at) k)
  Step-HasCost (adds before after a start m at) k =
      swapped before after (looking a start (length s.backends) (some m)) _ (λ h. h) (rw (← at) k)
  Step-HasCost (releases before after b m a at) k =
      swapped before after (holding b m a) _ (λ h. tt) (rw (← at) k)
  Step-HasCost (marks b healthy) k = k

  Run-HasCost : {w v : Race} → Run cost_of s w v → All HasCost w.threads → All HasCost v.threads
  Run-HasCost here k = k
  Run-HasCost (next r q) k = Step-HasCost q (Run-HasCost r k)

IsAway-of_none : (c : ℕ) (ts : List Phase) → All HasCost ts → holders c ts ≡ 0 → All (IsAway c) ts
unfolding holders
IsAway-of_none c [] k e = tt
IsAway-of_none c (looking a start i best ∷ ts) (h, k) e =
    (tt, IsAway-of_none c ts k (omega (arith, e)))
IsAway-of_none c (holding b m a ∷ ts) (h, k) e =
    (λ same. ground (arith, e, same), IsAway-of_none c ts k (ground (arith, e)))
IsAway-of_none c (stopped ∷ ts) (h, k) e = (tt, IsAway-of_none c ts k (omega (arith, e)))

none_of_away : (c : ℕ) (ts : List Phase) → All (IsAway c) ts → holders c ts ≡ 0
unfolding holders
none_of_away c [] k = refl
none_of_away c (looking a start i best ∷ ts) (h, k) = omega (arith, none_of_away c ts k)
none_of_away c (holding b m a ∷ ts) (h, k) = ground (arith, h, none_of_away c ts k)
none_of_away c (stopped ∷ ts) (h, k) = omega (arith, none_of_away c ts k)

-- In every interleaving of the selections and releases of `CostAware`, whatever the estimated costs, and
-- of changes of health between them, from counters at zero on: as long as what the goroutines hold of a
-- load counter sums up to less than 2 ^ 64, the counter is zero exactly if no goroutine holds it.
pub Run-idle :
    (s : Loads) (h : Heap) (turn : ℕ) {w : Race} (c : ℕ)
    → ((k : ℕ) → h.counter k ≡ 0)
    → Run cost_of s (record { heap = h; next = turn; threads = [] }) w
    → holders c w.threads < two64
    → (w.heap.counter c ≡ 0) ↔ All (IsAway c) w.threads
Run-idle s h turn {w} c zeros run small =
    let counted = Run-holders h turn zeros run c in
    (
      λ e. IsAway-of_none c w.threads (Run-HasCost run tt) (omega arith),
      λ k. (let none_held = none_of_away c w.threads k in omega arith),
    )
