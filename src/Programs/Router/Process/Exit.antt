-- ===== src/Programs/Router/Process/Exit.antt =====
-- When the process ends.
use infer_flow.Prelude.{ℕ, zero, suc, ◌≡◌, ◌≢◌, ◌⊎◌, refl, inl, inr, true, false, List}
use infer_flow.Proxy.{unreachable}
use infer_flow.Router.Heap.{Heap}
use infer_flow.Server.Lifecycle.{Life, gone, running, finished, started, closes}
use infer_flow.Server.Lifecycle
use infer_flow.Server.Lifecycle.Safety.{
  IsOrderly, started-IsOrderly, Step-IsOrderly, finished-gone, no-Step,
}
use infer_flow.Server.Lifecycle.Progress.{running-Ends}
use infer_flow.Programs.Router.Process.{
  serving, exited, stopping, draining, Process, launched, Step, accepts, answers, signalled, lives,
  unlistens, drains, gives_up, returns, breaks, Run, here, next,
}

record IsTidy (p : Process) : Type 0 where
  life : IsOrderly p.life
  -- The listener is closed behind `stopOnce`.
  listener : (p.listening ≡ true) ⊎ (p.life.once ≡ finished)
  -- `main` returns behind the listener.
  leaving : (p.main ≢ exited) ⊎ (p.listening ≡ false)

serving_stays : (p : Process) → p.main ≡ serving → p.main ≢ exited
serving_stays p e x = cc

module _ (bs : List ℕ) where
  Step-IsTidy : {p q : Process} → Step bs p q → IsTidy p → IsTidy q
  Step-IsTidy (accepts up opened) t = record {
    life = t.life;
    listener = t.listener;
    leaving = t.leaving;
  }
  Step-IsTidy (answers n up some_left) t = record {
    life = t.life;
    listener = t.listener;
    leaving = t.leaving;
  }
  Step-IsTidy (signalled up waits) t = record {
    life = t.life;
    listener = t.listener;
    leaving = t.leaving;
  }
  Step-IsTidy {p} (lives l up whose s) t = record {
    life = Step-IsOrderly s t.life;
    listener = elim t.listener [
      | inl still ↦ inl still
      | inr past ↦ absurd (no-Step past (finished-gone p.life t.life past) s)
    ];
    leaving = t.leaving;
  }
  Step-IsTidy (unlistens up at past) t = record {
    life = t.life;
    listener = inr past;
    leaving = inr refl;
  }
  Step-IsTidy (drains up at none_left) t = record {
    life = t.life;
    listener = t.listener;
    leaving = t.leaving;
  }
  Step-IsTidy (gives_up up at) t = record {
    life = t.life;
    listener = t.listener;
    leaving = t.leaving;
  }
  Step-IsTidy (returns up shut) t = record {
    life = t.life;
    listener = t.listener;
    leaving = inr shut;
  }
  Step-IsTidy (breaks up opened) t = record {
    life = t.life;
    listener = t.listener;
    leaving = inl (λ x. cc);
  }

  Run-IsTidy : {p q : Process} → Run bs p q → IsTidy p → IsTidy q
  Run-IsTidy here t = t
  Run-IsTidy (next r s) t = Step-IsTidy s (Run-IsTidy r t)

  launched-IsTidy : (h : Heap) → IsTidy (launched bs h)
  launched-IsTidy h = record {
    life = started-IsOrderly bs h;
    listener = inl refl;
    leaving = inl (λ x. cc);
  }

  -- In every run of the process: once `main` has returned, no new connection is taken and the prober is
  -- gone, so that no health check is cut off.
  pub Run-exited :
      (h : Heap) {p : Process}
      → Run bs (launched bs h) p
      → p.main ≡ exited
      → (p.listening ≡ false) × (p.life.once ≡ finished) × (p.life.prober ≡ gone)
  Run-exited h {p} r out =
      let t = Run-IsTidy r (launched-IsTidy h) in
      let shut : p.listening ≡ false = elim t.leaving [ inl n ↦ absurd (n out) | inr e ↦ e ] in
      let past : p.life.once ≡ finished = elim t.listener [ inl e ↦ cc | inr f ↦ f ] in
      (shut, past, finished-gone p.life t.life past)

  Run-trans : {p q r : Process} → Run bs p q → Run bs q r → Run bs p r
  Run-trans s here = s
  Run-trans s (next t u) = next (Run-trans s t) u

  -- So many requests come in.
  accepted : (h : Heap) (n : ℕ) → Run bs (launched bs h) (record (launched bs h) { in_flight = n })
  accepted h zero = here
  accepted h (suc n) = next (accepted h n) (accepts refl refl)

  -- The steps of the prober and of `Shutdown`, while the goroutine of the signal is in that.
  stopping-Run :
      (p : Process) {l : Life} {n : ℕ}
      → p.main ≡ serving
      → p.signal ≡ stopping
      → Lifecycle.Run bs p.life n l
      → Run bs p (record p { life = l })
  stopping-Run p up at Lifecycle.here = here
  stopping-Run p up at (Lifecycle.next r s) = next (stopping-Run p up at r) (lives _ up (inr at) s)

  -- `Shutdown` has closed `stopCh`.
  abbrev told : Heap → Life
  told h = record (started bs h) { once = running; stop_closes = 1 }

  busy :
      (h : Heap) (n : ℕ)
      → Run bs (launched bs h) (record {
        life = told h;
        listening = true;
        in_flight = n;
        signal = stopping;
        main = serving;
      })
  busy h n =
      next (next (accepted h n) (signalled refl refl))
        (lives (told h) refl (inr refl) (closes refl))

  -- For every number of requests, there is a run of the process in which `main` returns while so many
  -- are in flight and `httpSrv.Shutdown` still waits for them.
  pub exited_early :
      (h : Heap) (n : ℕ)
      → (p : Process) × Run bs (launched bs h) p
        × (p.main ≡ exited)
        × (p.in_flight ≡ n)
        × (p.signal ≡ draining)
  exited_early h n =
      let to_told : Lifecycle.Run bs (started bs h) 1 (told h) =
        Lifecycle.next Lifecycle.here (closes refl) in
      let (m, l, rest, short, past) = running-Ends bs h (λ b. unreachable) to_told refl in
      let over = Run-trans (busy h n) (stopping-Run _ {l = l} refl refl rest) in
      (_, next (next over (unlistens refl refl past)) (returns refl refl), refl, refl, refl)
