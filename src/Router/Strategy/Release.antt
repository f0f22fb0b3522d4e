-- ===== src/Router/Strategy/Release.antt =====
-- What a selection adds to a counter, its release takes back.
use mathlib.Core.Path.{subst}
use infer_flow.Prelude.{
  ℕ, nat_eq, ◌<◌, ◌≡◌, refl, inl, inr, false, Option, none, some, arith, Bool-cases, ◌==◌, ==_iff,
  length,
}
use infer_flow.Assoc.{lookup}
use infer_flow.Int64.{two64, neg64, add64-neg64}
use infer_flow.Cache.Store.{Store, Preference, found, absent, failed}
use infer_flow.Router.Heap.{Heap, add_counter}
use infer_flow.Router.Decision.{
  SelectionInput, Outcome, ok, no_healthy_backend, panic, Decision, release, run_release,
}
use infer_flow.Router.Loads.{Loads, Choice, choose}
use infer_flow.Router.Loads.Track.{IsSound}
use infer_flow.Router.Loads.Tracked.{TrackedOutcome, choose-Tracked}
use infer_flow.Router.Random.{Random, Rng}
use infer_flow.Router.Random
use infer_flow.Router.RoundRobin
use infer_flow.Router.RoundRobin.{RoundRobin}
use infer_flow.Router.LeastPending
use infer_flow.Router.CostAware
use infer_flow.Router.KvAware
use infer_flow.Router.KvAware.Affinity.{preferred_sound}
use infer_flow.Router.Strategy.{
  Strategy, round_robin, least_pending, random, kv_aware, cost_aware, select,
}

-- The memory `h'` after a selection: one allocated counter has grown by what the release takes back,
-- or nothing has changed where there is nothing to release.
abbrev pub Charge : Heap → Heap → Option (ℕ × ℕ) → Type 0
Charge h h' none = h' ≡ h
Charge h h' (some (c, e)) = (c < h.fresh) × ((d : ℕ) × (e ≡ neg64 d) × (h' ≡ add_counter c d h))

abbrev pub Charges : Heap → Heap → Outcome Decision → Type 0
Charges h h' (ok d) = (d.released ≡ false) × Charge h h' d.release
Charges h h' no_healthy_backend = h' ≡ h
Charges h h' panic = h' ≡ h

-- The counters of the strategy are allocated, and no two backends share one.
abbrev pub SoundLoads : {R : Type 0} → Heap → Strategy R → Type 0
SoundLoads h (round_robin s) = Unit {0}
SoundLoads h (least_pending s) = IsSound h s.loads
SoundLoads h (random s) = Unit {0}
SoundLoads h (kv_aware s) = IsSound h s.loads
SoundLoads h (cost_aware s) = IsSound h s.loads

module _ (h : Heap) (s : Loads) (sound : IsSound h s.loads) where
  commit-Charges :
      (o : Outcome Choice)
      → TrackedOutcome s.loads o
      → Charges h (LeastPending.commit h o).0 (LeastPending.commit h o).1
  unfolding LeastPending.grant
  commit-Charges (ok m) t = (refl, (sound.below m.backend m.load t, (1, refl, refl)))
  commit-Charges no_healthy_backend t = refl
  commit-Charges panic t = refl

  commit_cost-Charges :
      (cost : ℕ) (o : Outcome Choice)
      → TrackedOutcome s.loads o
      → Charges h (CostAware.commit_cost h cost o).0 (CostAware.commit_cost h cost o).1
  unfolding CostAware.grant_cost
  commit_cost-Charges cost (ok m) t = (refl, (sound.below m.backend m.load t, (cost, refl, refl)))
  commit_cost-Charges cost no_healthy_backend t = refl
  commit_cost-Charges cost panic t = refl

  least_pending-Charges :
      (input : SelectionInput) → let r = LeastPending.select h s input in Charges h r.0 r.2
  unfolding LeastPending.select
  least_pending-Charges input = elim (Bool-cases (length s.backends == 0)) [
    | inl e ↦ rw e refl
    | inr e ↦ rw e (commit-Charges (choose h s).1 (choose-Tracked h s))
  ]

  cost_aware-Charges :
      (input : SelectionInput) → let r = CostAware.select h s input in Charges h r.0 r.2
  unfolding CostAware.select
  cost_aware-Charges input = elim (Bool-cases (length s.backends == 0)) [
    | inl e ↦ rw e refl
    | inr e ↦
        rw e (commit_cost-Charges (CostAware.cost_of input) (choose h s).1 (choose-Tracked h s))
  ]

  hit_or_least-Charges :
      (o : Option Choice)
      → ((m : Choice) → o ≡ some m → lookup m.backend s.loads ≡ some m.load)
      → let r = KvAware.hit_or_least h s o in Charges h r.0 r.2
  unfolding LeastPending.grant KvAware.select_least_pending
  hit_or_least-Charges none t = commit-Charges (choose h s).1 (choose-Tracked h s)
  hit_or_least-Charges (some m) t =
      (refl, (sound.below m.backend m.load (t m refl), (1, refl, refl)))

  kv_aware-Charges :
      {S : Type 0} (store : Store S) (now : ℕ) (st : Option S) (input : SelectionInput)
      → let r = (KvAware.select store now h st s input).1 in Charges h r.0 r.2
  unfolding KvAware.select
  kv_aware-Charges store now st input = elim (Bool-cases (length s.backends == 0)) [
    | inl e ↦ rw e refl
    | inr e ↦
        rw e (hit_or_least-Charges _ (tracked (KvAware.ask_store store now input.cache_key st).1))
  ]
    where
      tracked :
          (p : Preference) (m : Choice)
          → KvAware.choice_of h s p ≡ some m
          → lookup m.backend s.loads ≡ some m.load
      tracked (found name) m e = (preferred_sound h s.loads name s.backends m e).tracked
      tracked absent m e = cc
      tracked failed m e = cc

pick_index-Charges : (h : Heap) (o : Option ℕ) → Charges h h (Random.pick_index o)
pick_index-Charges h none = refl
pick_index-Charges h (some b) = (refl, refl)

decide-Charges : (h : Heap) (o : Outcome ℕ) → Charges h h (RoundRobin.decide o)
decide-Charges h (ok b) = (refl, refl)
decide-Charges h no_healthy_backend = refl
decide-Charges h panic = refl

add_counter_back :
    (h : Heap) (c d : ℕ)
    → ((k : ℕ) → h.counter k < two64)
    → (k : ℕ) → (add_counter c (neg64 d) (add_counter c d h)).counter k ≡ h.counter k
unfolding add_counter
add_counter_back h c d words k = ground (arith, ==_iff c k, add64-neg64 (h.counter c) d (words c))

release-Charge :
    (h h' : Heap) (d : Decision)
    → ((k : ℕ) → h.counter k < two64)
    → d.released ≡ false
    → Charge h h' d.release
    → (k : ℕ) → (release d h').1.counter k ≡ h.counter k
unfolding release
release-Charge h h' d words unreleased charged = rw unreleased (go d.release charged)
  where
    go : (r : Option (ℕ × ℕ)) → Charge h h' r → (k : ℕ) → (run_release r h').counter k ≡ h.counter k
    go none e k = rw e
    go (some (c, e)) (below, (n, back, grown)) k = rw (back, grown) (add_counter_back h c n words k)

module _ {S R : Type 0} (store : Store S) (g : Rng R) (now : ℕ) (h : Heap) (st : Option S) where
  pub select-Charges :
      (s : Strategy R) (input : SelectionInput)
      → SoundLoads h s
      → let r = select store g now h st s input in Charges h r.heap r.decision
  unfolding select RoundRobin.select Random.select
  select-Charges (round_robin s) input sound = decide-Charges h (RoundRobin.pick h s).1
  select-Charges (least_pending s) input sound = least_pending-Charges h s sound input
  select-Charges (random s) input sound =
      elim (Bool-cases (length (Random.healthy_of h s.backends) == 0)) [
        | inl e ↦ rw e refl
        | inr e ↦ rw e (pick_index-Charges h _)
      ]
  select-Charges (kv_aware s) input sound = kv_aware-Charges h s sound store now st input
  select-Charges (cost_aware s) input sound = cost_aware-Charges h s sound input

  -- For every strategy whose load counters are allocated and apart, on counters that hold 64-bit words:
  -- a selection that succeeds, with its release after it, leaves every counter as it was.
  pub release-select :
      (s : Strategy R) (input : SelectionInput) (d : Decision)
      → SoundLoads h s
      → ((c : ℕ) → h.counter c < two64)
      → (select store g now h st s input).decision ≡ ok d
      → (c : ℕ) → (release d (select store g now h st s input).heap).1.counter c ≡ h.counter c
  release-select s input d sound words e =
      let r = select store g now h st s input in
      let charged : Charges h r.heap (ok d) =
        subst (Charges h r.heap) e (select-Charges s input sound) in
      release-Charge h r.heap d words charged.0 charged.1
