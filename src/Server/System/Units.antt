-- ===== src/Server/System/Units.antt =====
-- Every strategy that the server can switch to moves a load counter by one, and back.
use infer_flow.Prelude.{
  ℕ, nat_eq, ◌+◌, ◌≡◌, refl, inl, inr, List, [], ◌∷◌, Option, none, some, arith, All, length, ◌==◌,
  if◌then◌else◌, Bool-cases,
}
use infer_flow.Int64.{add64, neg64}
use infer_flow.Cache.Store.{Store}
use infer_flow.Router.Heap.{Heap}
use infer_flow.Router.Decision.{SelectionInput, Outcome, ok, no_healthy_backend, panic, Decision}
use infer_flow.Router.Loads.{Loads, Choice, choose}
use infer_flow.Router.Random.{Rng}
use infer_flow.Router.Random
use infer_flow.Router.RoundRobin
use infer_flow.Router.LeastPending
use infer_flow.Router.KvAware
use infer_flow.Router.Strategy.{
  Strategy, round_robin, least_pending, random, kv_aware, cost_aware, select,
}
use infer_flow.Server.Chat.{Pending}
use infer_flow.Server.System.Due.{owed, due}

-- The number of requests that hold a counter.
unfoldable pub holds : ℕ → Option (ℕ × ℕ) → ℕ
holds c none = 0
holds c (some (k, e)) = if k == c then 1 else 0

unfoldable pub holders : {F : Type 0} → ℕ → List (Pending F) → ℕ
holders c [] = 0
holders c (p ∷ ps) = holds c p.decision.release + holders c ps

-- The release takes back 1.
abbrev pub IsUnitRelease : Option (ℕ × ℕ) → Type 0
IsUnitRelease none = Unit {0}
IsUnitRelease (some (c, e)) = e ≡ neg64 1

abbrev pub IsUnitOutcome : Outcome Decision → Type 0
IsUnitOutcome (ok d) = IsUnitRelease d.release
IsUnitOutcome no_healthy_backend = Unit {0}
IsUnitOutcome panic = Unit {0}

-- A strategy that the server can switch to.
abbrev pub IsInstalled : {R : Type 0} → Strategy R → Type 0
IsInstalled (round_robin s) = Unit {0}
IsInstalled (least_pending s) = Unit {0}
IsInstalled (random s) = Unit {0}
IsInstalled (kv_aware s) = Unit {0}
IsInstalled (cost_aware s) = ⊥

pub due_of_units :
    {F : Type 0} (c : ℕ) (ps : List (Pending F))
    → All (λ p. IsUnitRelease p.decision.release) ps
    → add64 (due c ps) (holders c ps) ≡ 0
unfolding due holders add64
due_of_units c [] u = omega arith
due_of_units c (p ∷ ps) (u, us) = one p.decision.release u (due_of_units c ps us)
  where
    one :
        (r : Option (ℕ × ℕ))
        → IsUnitRelease r
        → add64 (due c ps) (holders c ps) ≡ 0
        → add64 (add64 (owed c r) (due c ps)) (holds c r + holders c ps) ≡ 0
    one none u rest = unfold owed holds add64 in omega (arith, rest)
    one (some (k, e)) u rest = unfold owed holds neg64 add64 in ground (arith, rest)

commit-IsUnit : (h : Heap) (o : Outcome Choice) → IsUnitOutcome (LeastPending.commit h o).1
unfolding LeastPending.grant
commit-IsUnit h (ok c) = refl
commit-IsUnit h no_healthy_backend = tt
commit-IsUnit h panic = tt

hit_or_least-IsUnit :
    (h : Heap) (s : Loads) (o : Option Choice) → IsUnitOutcome (KvAware.hit_or_least h s o).2
unfolding LeastPending.grant KvAware.select_least_pending
hit_or_least-IsUnit h s none = commit-IsUnit h (choose h s).1
hit_or_least-IsUnit h s (some c) = refl

decide-IsUnit : (o : Outcome ℕ) → IsUnitOutcome (RoundRobin.decide o)
decide-IsUnit (ok b) = tt
decide-IsUnit no_healthy_backend = tt
decide-IsUnit panic = tt

pick_index-IsUnit : (o : Option ℕ) → IsUnitOutcome (Random.pick_index o)
pick_index-IsUnit none = tt
pick_index-IsUnit (some b) = tt

module _ {S R : Type 0} (store : Store S) (g : Rng R) (now : ℕ) (h : Heap) (st : Option S) where
  pub select-IsUnit :
      (s : Strategy R) (input : SelectionInput)
      → IsInstalled s
      → let r = select store g now h st s input in IsUnitOutcome r.decision × IsInstalled r.strategy
  unfolding select RoundRobin.select Random.select LeastPending.select KvAware.select
  select-IsUnit (round_robin s) input i = (decide-IsUnit (RoundRobin.pick h s).1, tt)
  select-IsUnit (least_pending s) input i = elim (Bool-cases (length s.backends == 0)) [
    | inl e ↦ rw e (tt, tt)
    | inr e ↦ rw e (commit-IsUnit h (choose h s).1, tt)
  ]
  select-IsUnit (random s) input i =
      elim (Bool-cases (length (Random.healthy_of h s.backends) == 0)) [
        | inl e ↦ rw e (tt, tt)
        | inr e ↦ rw e (pick_index-IsUnit _, tt)
      ]
  select-IsUnit (kv_aware s) input i = elim (Bool-cases (length s.backends == 0)) [
    | inl e ↦ rw e (tt, tt)
    | inr e ↦ rw e (hit_or_least-IsUnit h s _, tt)
  ]
  select-IsUnit (cost_aware s) input i = absurd i
