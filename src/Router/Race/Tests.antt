-- ===== src/Router/Race/Tests.antt =====
-- One backend, and a goroutine that takes it.
use infer_flow.Prelude.{nat_eq, ◌%◌, ◌≡◌, ◌<◌, ◌↔◌, All, refl, true, none, [], ◌∷◌, arith}
use infer_flow.Text.{codes}
use infer_flow.Assoc.{lookup}
use infer_flow.Int64.{two64, add64, sub64, srem64, slt64}
use infer_flow.Router.Heap.{Heap, is_healthy, add_counter}
use infer_flow.Router.Slots.{start_of, slot}
use infer_flow.Router.Decision.{SelectionInput}
use infer_flow.Router.Loads.{Loads, Choice, consider}
use infer_flow.Router.CostAware.{cost_of}
use infer_flow.Router.Race.{holding, Race, enters, looks, adds, Run, here, next}
use infer_flow.Router.Race.Count.{holders, Run-holders}
use infer_flow.Router.Race.Idle.{IsAway, Run-idle}

abbrev one : Loads
one = record { backends = 0 ∷ []; next = 0; loads = (0, 10) ∷ [] }

abbrev memory : Heap
memory = record {
  backend = λ b. record { name = codes "a"; base_url = codes "http://a"; healthy = true };
  counter = λ c. 0;
  fresh = 11;
}

abbrev idle : Race
idle = record { heap = memory; next = 0; threads = [] }

abbrev asked : SelectionInput
asked = record { estimated_cost = 5; cache_key = [] }

abbrev taken : Race
taken = record { heap = add_counter 10 5 memory; next = add64 0 1; threads = holding 0 10 5 ∷ [] }

abbrev only : Choice
only = record { backend = 0; load = 10; pending = 0 }

takes : Run cost_of one idle taken
unfolding start_of slot consider lookup is_healthy add64 sub64 srem64 cost_of slt64
takes =
    next
      (next (next here (enters asked (omega arith)))
        (looks [] [] 5 (start_of 0 1) 0 0 none refl (omega arith) refl))
      (adds [] [] 5 (start_of 0 1) only refl)

Run-holders_example : taken.heap.counter 10 ≡ holders 10 taken.threads % two64
Run-holders_example = Run-holders memory 0 (λ c. refl) takes 10

-- A request without an estimate, which costs one.
abbrev unestimated : SelectionInput
unestimated = record { estimated_cost = 0; cache_key = [] }

abbrev one_held : Race
one_held = record {
  heap = add_counter 10 1 memory;
  next = add64 0 1;
  threads = holding 0 10 1 ∷ [];
}

takes_one : Run cost_of one idle one_held
unfolding start_of slot consider lookup is_healthy add64 sub64 srem64 cost_of slt64
takes_one =
    next
      (next (next here (enters unestimated (omega arith)))
        (looks [] [] 1 (start_of 0 1) 0 0 none refl (omega arith) refl))
      (adds [] [] 1 (start_of 0 1) only refl)

one_is_small : holders 10 one_held.threads < two64
unfolding holders
one_is_small = omega arith

Run-idle_example : (one_held.heap.counter 10 ≡ 0) ↔ All (IsAway 10) one_held.threads
Run-idle_example = Run-idle one memory 0 10 (λ c. refl) takes_one one_is_small
