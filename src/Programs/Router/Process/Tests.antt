-- ===== src/Programs/Router/Process/Tests.antt =====
-- A router with one backend that is stopped at once, and one that is stopped among three requests.
use infer_flow.Prelude.{ℕ, ◌≡◌, refl, inr, [], ◌∷◌, false, arith, List, inl}
use infer_flow.Proxy.{unreachable}
use infer_flow.Server.Samples.{one_memory}
use infer_flow.Server.Lifecycle.{gone, finished, checks, rests, leaves, closes, passes}
use infer_flow.Programs.Router.Process.{
  Process, launched, exited, draining, Run, here, next, signalled, lives, unlistens, returns,
}
use infer_flow.Programs.Router.Process.Exit.{Run-exited, exited_early}

abbrev one : List ℕ
one = 0 ∷ []

stopped_at_once : (p : Process) × Run one (launched one one_memory) p × (p.main ≡ exited)
stopped_at_once = (
  _,
  next
      (next
        (next
          (next
            (next
              (next (next (next here (signalled refl refl)) (lives _ refl (inr refl) (closes refl)))
                (lives _ refl (inl refl) (checks 0 [] unreachable refl)))
              (lives _ refl (inl refl) (rests refl)))
            (lives _ refl (inl refl) (leaves refl (omega arith))))
          (lives _ refl (inr refl) (passes refl (omega arith))))
        (unlistens refl refl refl))
      (returns refl refl),
  refl,
)

Run-exited_example :
    let p = stopped_at_once.0 in
    (p.listening ≡ false) × (p.life.once ≡ finished) × (p.life.prober ≡ gone)
Run-exited_example = Run-exited one one_memory (stopped_at_once.1) (stopped_at_once.2)

exited_early_example :
    (p : Process) × Run one (launched one one_memory) p
    × (p.main ≡ exited)
    × (p.in_flight ≡ 3)
    × (p.signal ≡ draining)
exited_early_example = exited_early one one_memory 3
