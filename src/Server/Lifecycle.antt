-- ===== src/Server/Lifecycle.antt =====
-- internal/server/server.go: the goroutine of `startProber`, and `Shutdown`, which stops it. The two run
-- beside each other: one step is what either does between two points where it can wait.
pub mod Safety
pub mod Progress
pub mod Termination
mod Tests
use infer_flow.Prelude.{ℕ, suc, ◌≤◌, ◌≡◌, List, [], ◌∷◌}
use infer_flow.Proxy.{Exchange, health_check}
use infer_flow.Router.Heap.{Heap, set_healthy}

-- Where the goroutine stands: before the health checks of these backends, at its `select`, or gone.
pub data Prober : Type 0 where
  probing : List ℕ → Prober
  waiting : Prober
  gone : Prober

-- `stopOnce`: the first call of `Shutdown` runs the function, all others wait for its end.
pub data Once : Type 0 where
  unused : Once
  running : Once
  finished : Once

-- How often `stopCh` and `probeDone` have been closed: a second time would be a panic.
pub record Life : Type 0 where
  pub heap : Heap
  pub prober : Prober
  pub once : Once
  pub stop_closes : ℕ
  pub done_closes : ℕ

-- `New`, which starts the goroutine.
abbrev pub started : List ℕ → Heap → Life
started bs h = record {
  heap = h;
  prober = probing bs;
  once = unused;
  stop_closes = 0;
  done_closes = 0;
}

module _ (bs : List ℕ) where
  pub data Step (l : Life) : Life → Type 0 where
    -- One health check of `probeBackends`.
    checks :
        (b : ℕ) (rest : List ℕ) (answer : Exchange (Unit {0}))
        → l.prober ≡ probing (b ∷ rest)
        → Step l
            (record l { heap = set_healthy b (health_check answer) l.heap; prober = probing rest })
    -- The end of a round.
    rests : l.prober ≡ probing [] → Step l (record l { prober = waiting })
    -- `<-ticker.C`, which may be chosen also if `stopCh` is closed.
    ticks : l.prober ≡ waiting → Step l (record l { prober = probing bs })
    -- `<-s.stopCh`, with the deferred `close(s.probeDone)`.
    leaves :
        l.prober ≡ waiting
        → 1 ≤ l.stop_closes
        → Step l (record l { prober = gone; done_closes = suc l.done_closes })
    -- The first `Shutdown`: `close(s.stopCh)`.
    closes : l.once ≡ unused → Step l (record l { once = running; stop_closes = suc l.stop_closes })
    -- `<-s.probeDone`, and the end of `stopOnce.Do`.
    passes : l.once ≡ running → 1 ≤ l.done_closes → Step l (record l { once = finished })

  -- A run of so many steps.
  pub data Run (l : Life) : ℕ → Life → Type 0 where
    here : Run l 0 l
    next : {n : ℕ} {v u : Life} → Run l n v → Step v u → Run l (suc n) u
