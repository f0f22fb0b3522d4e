-- ===== src/Server/Lifecycle/Tests.antt =====
-- A server with one backend that is shut down before its first health check.
use infer_flow.Prelude.{ℕ, ◌≡◌, ◌≤◌, ◌*◌, ◌⊎◌, refl, [], ◌∷◌, arith, length, List, ◌+◌}
use infer_flow.Proxy.{unreachable, health_check}
use infer_flow.Router.Heap.{set_healthy}
use infer_flow.Server.Samples.{one_memory}
use infer_flow.Server.Lifecycle.{
  Life, started, gone, finished, running, checks, rests, leaves, closes, passes, Run, here, next,
}
use infer_flow.Server.Lifecycle.Safety.{Run-Shutdown}
use infer_flow.Server.Lifecycle.Termination.{ticks_in, GoesOn, Run-Ended}

abbrev one : List ℕ
one = 0 ∷ []

abbrev stopping : Life
stopping = record (started one one_memory) { once = running; stop_closes = 1 }

-- The check fails, the round ends, and the prober leaves.
abbrev stopped : Life
stopped = record {
  heap = set_healthy 0 (health_check unreachable) one_memory;
  prober = gone;
  once = finished;
  stop_closes = 1;
  done_closes = 1;
}

to_stopping : Run one (started one one_memory) 1 stopping
to_stopping = next here (closes refl)

to_stopped : Run one (started one one_memory) 5 stopped
to_stopped =
    next
      (next (next (next to_stopping (checks 0 [] unreachable refl)) (rests refl))
        (leaves refl (omega arith)))
      (passes refl (omega arith))

Run-Shutdown_example : (stopped.prober ≡ gone) × (stopped ≡ stopped)
Run-Shutdown_example = Run-Shutdown one one_memory to_stopped refl here

to_the_end : Run one stopping 4 stopped
to_the_end =
    next
      (next (next (next here (checks 0 [] unreachable refl)) (rests refl))
        (leaves refl (omega arith)))
      (passes refl (omega arith))

Run-Ended_example :
    (4 ≤ length one + 3 + ticks_in to_the_end * (length one + 2))
    × ((stopped.once ≡ finished) ⊎ GoesOn one stopped)
Run-Ended_example = Run-Ended one one_memory to_stopping refl to_the_end
