-- ===== src/Server/Lifecycle/Progress.antt =====
-- A way to the end of a `Shutdown`.
use infer_flow.Prelude.{ℕ, suc, ◌+◌, ◌≤◌, ◌≡◌, refl, List, [], ◌∷◌, length, arith}
use infer_flow.Proxy.{Exchange}
use infer_flow.Router.Heap.{Heap}
use infer_flow.Server.Lifecycle.{
  Prober, probing, waiting, gone, running, finished, Life, started, Step, checks, rests, ticks,
  leaves, closes, passes, Run, here, next,
}
use infer_flow.Server.Lifecycle.Safety.{IsOrderly, Run-IsOrderly, started-IsOrderly}

-- The health checks that are left of the round.
abbrev pub left : Prober → ℕ
left (probing rest) = length rest
left waiting = 0
left gone = 0

module _ (bs : List ℕ) where
  Run-first : {l m k : Life} {n : ℕ} → Step bs l m → Run bs m n k → Run bs l (suc n) k
  Run-first s here = next here s
  Run-first s (next r t) = next (Run-first s r) t

  Step-left : {l m : Life} → Step bs l m → left l.prober ≤ length bs → left m.prober ≤ length bs
  Step-left {l} (checks b rest answer e) h = ground arith
  Step-left {l} (rests e) h = omega arith
  Step-left {l} (ticks e) h = omega arith
  Step-left {l} (leaves e stopped) h = omega arith
  Step-left {l} (closes e) h = h
  Step-left {l} (passes e done) h = h

  pub Run-left :
      {l m : Life} {n : ℕ} → Run bs l n m → left l.prober ≤ length bs → left m.prober ≤ length bs
  Run-left here h = h
  Run-left (next r s) h = Step-left s (Run-left r h)

  -- A run of at most `bound` steps to the end of `Shutdown`.
  abbrev pub Ends : Life → ℕ → Type 0
  Ends l bound = (n : ℕ) × (m : Life) × Run bs l n m × (n ≤ bound) × (m.once ≡ finished)

  Ends-Step : {l m : Life} (i j : ℕ) → suc i ≤ j → Step bs l m → Ends m i → Ends l j
  Ends-Step i j le s (n, k, r, short, f) = (suc n, k, Run-first s r, omega arith, f)

  gone-Ends : (l : Life) → l.once ≡ running → 1 ≤ l.done_closes → Ends l 1
  gone-Ends l o done = (1, _, next here (passes o done), omega arith, refl)

  waiting-Ends : (l : Life) → l.once ≡ running → l.prober ≡ waiting → 1 ≤ l.stop_closes → Ends l 2
  waiting-Ends l o w stopped =
      Ends-Step 1 2 (omega arith) (leaves w stopped) (gone-Ends _ o (omega arith))

  probing-Ends :
      (answers : ℕ → Exchange (Unit {0})) (rest : List ℕ) (l : Life)
      → l.once ≡ running
      → l.prober ≡ probing rest
      → 1 ≤ l.stop_closes
      → Ends l (length rest + 3)
  probing-Ends answers [] l o e stopped =
      Ends-Step 2 _ (omega arith) (rests e) (waiting-Ends _ o refl stopped)
  probing-Ends answers (b ∷ rest) l o e stopped =
      Ends-Step (length rest + 3) _ (omega arith) (checks b rest (answers b) e)
        (probing-Ends answers rest _ o refl stopped)

  orderly-Ends :
      (answers : ℕ → Exchange (Unit {0})) (l : Life)
      → IsOrderly l
      → l.once ≡ running
      → left l.prober ≤ length bs
      → Ends l (length bs + 3)
  orderly-Ends answers l o e h = go l.prober refl
    where
      stopped : 1 ≤ l.stop_closes
      stopped = ground (arith, o.stops)

      go : (p : Prober) → l.prober ≡ p → Ends l (length bs + 3)
      go (probing rest) at =
          let (n, m, r, short, f) = probing-Ends answers rest l e at stopped in
          let few : length rest ≤ length bs = ground arith in (n, m, r, omega arith, f)
      go waiting at =
          let (n, m, r, short, f) = waiting-Ends l e at stopped in (n, m, r, omega arith, f)
      go gone at =
          let (n, m, r, short, f) = gone-Ends l e (ground (arith, o.dones)) in
          (n, m, r, omega arith, f)

  -- From every state of a run from the start in which a `Shutdown` waits for the prober, there is a run of
  -- at most three steps more than there are backends in which the `Shutdown` gets past `stopOnce`.
  pub running-Ends :
      (h : Heap) (answers : ℕ → Exchange (Unit {0})) {n : ℕ} {l : Life}
      → Run bs (started bs h) n l
      → l.once ≡ running
      → Ends l (length bs + 3)
  running-Ends h answers {l} r e =
      orderly-Ends answers l (Run-IsOrderly r (started-IsOrderly bs h)) e (Run-left r (omega arith))
