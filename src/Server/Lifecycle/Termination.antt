-- ===== src/Server/Lifecycle/Termination.antt =====
-- How long a `Shutdown` can take.
use infer_flow.Prelude.{
  ℕ, suc, ◌+◌, ◌*◌, ◌≤◌, ◌≡◌, ◌≢◌, refl, ◌⊎◌, inl, inr, Bool, Bool-cases, true, false, List, [],
  ◌∷◌, length, arith, if◌then◌else◌,
}
use infer_flow.Proxy.{unreachable}
use infer_flow.Router.Heap.{Heap}
use infer_flow.Server.Lifecycle.{
  Prober, probing, waiting, gone, Once, unused, running, finished, Life, started, Step, checks,
  rests, ticks, leaves, closes, passes, Run, here, next,
}
use infer_flow.Server.Lifecycle.Safety.{
  IsOrderly, Run-IsOrderly, started-IsOrderly, finished-gone, gone_of_done,
}
use infer_flow.Server.Lifecycle.Progress.{left, Run-left}

-- The steps that are left of a `Shutdown`, if the ticker is not chosen again.
abbrev due : Once → Prober → ℕ
due finished p = 0
due unused p = 0
due running (probing rest) = length rest + 3
due running waiting = 2
due running gone = 1

-- A `Shutdown` has begun.
abbrev IsBegun : Life → Type 0
IsBegun l = l.once ≢ unused

running_now : (l : Life) → IsOrderly l → IsBegun l → l.prober ≢ gone → l.once ≡ running
running_now l o k there = go l.once refl
  where
    go : (x : Once) → l.once ≡ x → l.once ≡ running
    go unused e = absurd (k e)
    go running e = e
    go finished e = absurd (there (finished-gone l o e))

module _ {bs : List ℕ} where
  -- `<-ticker.C` is chosen, instead of `<-s.stopCh`.
  unfoldable pub is_tick : {l m : Life} → Step bs l m → Bool
  is_tick (checks b rest answer e) = false
  is_tick (rests e) = false
  is_tick (ticks e) = true
  is_tick (leaves e stopped) = false
  is_tick (closes e) = false
  is_tick (passes e done) = false

  -- How often the ticker is chosen in a run.
  unfoldable pub ticks_in : {l m : Life} {n : ℕ} → Run bs l n m → ℕ
  ticks_in here = 0
  ticks_in (next r s) = let n = ticks_in r in if is_tick s then suc n else n

  Step-IsBegun : {l m : Life} → Step bs l m → IsBegun l → IsBegun m
  Step-IsBegun (checks b rest answer e) k = k
  Step-IsBegun (rests e) k = k
  Step-IsBegun (ticks e) k = k
  Step-IsBegun (leaves e stopped) k = k
  Step-IsBegun (closes e) k = λ f. cc
  Step-IsBegun (passes e done) k = λ f. cc

  Run-IsBegun : {l m : Life} {n : ℕ} → Run bs l n m → IsBegun l → IsBegun m
  Run-IsBegun here k = k
  Run-IsBegun (next r s) k = Step-IsBegun s (Run-IsBegun r k)

  -- A step brings the end nearer by one, unless the ticker is chosen.
  Step-due :
      {l m : Life} (s : Step bs l m)
      → IsOrderly l
      → IsBegun l
      → suc (due m.once m.prober) ≡ due l.once l.prober + (if is_tick s then length bs + 2 else 0)
  unfolding is_tick
  Step-due {l} (checks b rest answer e) o k = rw (running_now l o k (λ g. cc), e) (omega arith)
  Step-due {l} (rests e) o k = rw (running_now l o k (λ g. cc), e) refl
  Step-due {l} (ticks e) o k = rw (running_now l o k (λ g. cc), e) (omega arith)
  Step-due {l} (leaves e stopped) o k = rw (running_now l o k (λ g. cc), e) refl
  Step-due {l} (closes e) o k = absurd (k e)
  Step-due {l} (passes e done) o k = rw (e, gone_of_done l.prober (omega (arith, o.dones))) refl

  Run-due :
      {l m : Life} {n : ℕ} (r : Run bs l n m)
      → IsOrderly l
      → IsBegun l
      → n + due m.once m.prober ≡ due l.once l.prober + ticks_in r * (length bs + 2)
  unfolding ticks_in
  Run-due here o k = omega arith
  Run-due (next r s) o k =
      let before = Run-due r o k in
      let last = Step-due s (Run-IsOrderly r o) (Run-IsBegun r k) in
      elim (Bool-cases (is_tick s)) [
        | inl e ↦ (let last' = rw e at last in rw e (omega arith))
        | inr e ↦ (let last' = rw e at last in rw e (omega arith))
      ]

module _ (bs : List ℕ) where
  -- A step can be taken, and not only the ticker's.
  abbrev pub GoesOn : Life → Type 0
  GoesOn l = (m : Life) × (s : Step bs l m) × (is_tick s ≡ false)

  goes_on : (l : Life) → IsOrderly l → l.once ≡ running → (p : Prober) → l.prober ≡ p → GoesOn l
  unfolding is_tick
  goes_on l o e (probing []) at = (_, rests at, refl)
  goes_on l o e (probing (b ∷ rest)) at = (_, checks b rest unreachable at, refl)
  goes_on l o e waiting at =
      let stopped : 1 ≤ l.stop_closes = ground (arith, o.stops) in (_, leaves at stopped, refl)
  goes_on l o e gone at =
      let done : 1 ≤ l.done_closes = ground (arith, o.dones) in (_, passes e done, refl)

  ended_or_on :
      (l : Life)
      → IsOrderly l
      → IsBegun l
      → (x : Once) → l.once ≡ x
      → (l.once ≡ finished) ⊎ GoesOn l
  ended_or_on l o k unused e = absurd (k e)
  ended_or_on l o k running e = inr (goes_on l o e l.prober refl)
  ended_or_on l o k finished e = inl e

  due_le : (p : Prober) (o : Once) → o ≡ running → left p ≤ length bs → due o p ≤ length bs + 3
  due_le (probing rest) o e h = rw e (omega arith)
  due_le waiting o e h = rw e (omega arith)
  due_le gone o e h = rw e (omega arith)

-- From every state of a run from the start in which a `Shutdown` waits for the prober, every run that
-- goes on from there, whatever the health checks in it answer, has at most three steps more than there
-- are backends, and for each time that the ticker is chosen instead of the closed `stopCh` one round more,
-- of two steps more than there are backends. Where it stops, the `Shutdown` is past `stopOnce`, or another
-- step than the ticker's can be taken.
pub Run-Ended :
    (bs : List ℕ) (h : Heap) {n k : ℕ} {l m : Life}
    → Run bs (started bs h) n l
    → l.once ≡ running
    → (r : Run bs l k m)
    → (k ≤ length bs + 3 + ticks_in r * (length bs + 2)) × ((m.once ≡ finished) ⊎ GoesOn bs m)
Run-Ended bs h {n} {k} {l} {m} first e r =
    let o = Run-IsOrderly first (started-IsOrderly bs h) in
    let begun : l.once ≢ unused = λ f. cc in
    let count = Run-due r o begun in
    let few = due_le bs l.prober l.once e (Run-left bs first (omega arith)) in
    (omega arith, ended_or_on bs m (Run-IsOrderly r o) (Run-IsBegun r begun) m.once refl)
