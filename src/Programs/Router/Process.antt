-- ===== src/Programs/Router/Process.antt =====
-- cmd/router/main.go: the process behind the start of the server, with `Run` and `Shutdown` of
-- internal/server/server.go. One step is what one of its goroutines does between two points where it
-- can wait. Of `http.Server` it uses what its documentation says: `Shutdown` first closes the listeners,
-- upon which `ListenAndServe` returns at once, and then waits until no request is in flight, or for as
-- long as its context allows.
pub mod Exit
mod Tests
use infer_flow.Prelude.{ℕ, suc, ◌≡◌, ◌⊎◌, Bool, true, false, List}
use infer_flow.Router.Heap.{Heap}
use infer_flow.Server.Lifecycle.{Life, finished, started}
use infer_flow.Server.Lifecycle

-- Where `main` stands: in `srv.Run()`, behind its end, or at `log.Fatalf`.
pub data Main : Type 0 where
  serving : Main
  exited : Main
  failed : Main

-- Where the goroutine that waits for a signal stands: at `<-stop`, in `srv.Shutdown()` before
-- `httpSrv.Shutdown`, in that, or behind it.
pub data Signal : Type 0 where
  awaiting : Signal
  stopping : Signal
  draining : Signal
  ended : Signal

pub record Process : Type 0 where
  pub life : Life
  pub listening : Bool
  pub in_flight : ℕ
  pub signal : Signal
  pub main : Main

abbrev pub launched : List ℕ → Heap → Process
launched bs h = record {
  life = started bs h;
  listening = true;
  in_flight = 0;
  signal = awaiting;
  main = serving;
}

module _ (bs : List ℕ) where
  -- The process has steps for as long as `main` has not returned.
  pub data Step (p : Process) : Process → Type 0 where
    -- A request comes in, and one is answered.
    accepts :
        p.main ≡ serving → p.listening ≡ true → Step p (record p { in_flight = suc p.in_flight })
    answers : (n : ℕ) → p.main ≡ serving → p.in_flight ≡ suc n → Step p (record p { in_flight = n })
    -- `SIGINT` or `SIGTERM`.
    signalled : p.main ≡ serving → p.signal ≡ awaiting → Step p (record p { signal = stopping })
    -- A step of the prober, or of `Shutdown` up to the end of `stopOnce.Do`.
    lives :
        (l : Life)
        → p.main ≡ serving
        → (l.once ≡ p.life.once) ⊎ (p.signal ≡ stopping)
        → Lifecycle.Step bs p.life l
        → Step p (record p { life = l })
    -- The first thing that `httpSrv.Shutdown` does.
    unlistens :
        p.main ≡ serving
        → p.signal ≡ stopping
        → p.life.once ≡ finished
        → Step p (record p { listening = false; signal = draining })
    -- `httpSrv.Shutdown` returns: with no request in flight, or after five seconds.
    drains :
        p.main ≡ serving
        → p.signal ≡ draining
        → p.in_flight ≡ 0
        → Step p (record p { signal = ended })
    gives_up : p.main ≡ serving → p.signal ≡ draining → Step p (record p { signal = ended })
    -- `ListenAndServe` returns `ErrServerClosed`, of which `Run` makes no error, and `main` returns.
    returns : p.main ≡ serving → p.listening ≡ false → Step p (record p { main = exited })
    -- `ListenAndServe` returns another error.
    breaks : p.main ≡ serving → p.listening ≡ true → Step p (record p { main = failed })

  pub data Run (p : Process) : Process → Type 0 where
    here : Run p p
    next : {q r : Process} → Run p q → Step q r → Run p r
