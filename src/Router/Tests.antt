-- ===== src/Router/Tests.antt =====
-- The router at three backends, the second of which is not healthy.
use infer_flow.Prelude.{
  ℕ, ◌+◌, ◌%◌, ◌<◌, ◌≡◌, refl, Mem, Perm, map, rotate, true, false, List, [], ◌∷◌, none, some,
  arith, nat_eq, if◌then◌else◌, ◌==◌, ◌*◌, ◌/◌, ◌≤◌, suc,
}
use mathlib.Core.List.{mem-cons_self, mem-cons_of_mem}
use native.Mathlib.Nat.{mod-lt}
use infer_flow.Text.{Text, codes, trim_space, trim_left, trim_right, is_space}
use infer_flow.Assoc.{lookup}
use infer_flow.Int64.{two63, neg64, srem64, sub64, add64, slt64}
use infer_flow.Router.LeastPending
use infer_flow.Router.Slots.{start_of, slot}
use infer_flow.Cache.Store.{lifetime}
use infer_flow.Cache.Memory.{
  MemoryStore, new_memory_store, memory_store, remember_backend, memory_store-StoreLaws,
}
use infer_flow.Router.Heap.{Backend, Heap, is_healthy, add_counter}
use infer_flow.Router.Decision.{SelectionInput, ok, panic, Decision, release}
use infer_flow.Router.Random.{Rng}
use infer_flow.Router.RoundRobin.{RoundRobin, pick}
use infer_flow.Router.RoundRobin.Order.{first_healthy, pick-first_healthy, pick-panic}
use infer_flow.Router.RoundRobin.Fairness.{picks, picks-rotate}
use infer_flow.Router.RoundRobin.Balance.{times, picked, picked-balance}
use infer_flow.Router.RoundRobin.Progress.{picks_every}
use infer_flow.Router.Loads.{Loads, set_backends, choose, scan, consider}
use infer_flow.Router.Loads.Track.{IsSound}
use infer_flow.Router.Loads.Rebuilt.{Rebuilt, set_backends-Rebuilt}
use infer_flow.Router.Loads.Serves.{Covered}
use infer_flow.Router.Loads.Least.{Chooses, choose-Chooses}
use infer_flow.Router.KvAware
use infer_flow.Router.KvAware.Affinity.{any_named, select-remember_backend}
use infer_flow.Router.Strategy.{least_pending, has_healthy_backend, select}
use infer_flow.Router.Strategy.Serves.{Answers, has_healthy_backend-select}
use infer_flow.Router.Strategy.Release.{release-select}

abbrev three : List ℕ
three = 0 ∷ 1 ∷ 2 ∷ []

abbrev well : Text → Backend
well name = record { name = name; base_url = codes "http://localhost"; healthy = true }

-- The backends `a`, `b` and `c` at the addresses 0, 1 and 2.
abbrev backend_at : ℕ → Backend
backend_at b =
    if b == 0
    then well (codes "a")
    else if b == 1
    then record (well (codes "b")) { healthy = false }
    else well (codes "c")

abbrev memory : Heap
memory = record { backend = backend_at; counter = λ c. 0; fresh = 0 }

-- The loads 4, 0 and 3, at the counters 10, 11 and 12.
abbrev loads : Loads
loads = record { backends = three; next = 4; loads = (0, 10) ∷ (1, 11) ∷ (2, 12) ∷ [] }

abbrev load_at : ℕ → ℕ
load_at c = if c == 10 then 4 else if c == 12 then 3 else 0

abbrev loaded : Heap
loaded = record { backend = backend_at; counter = load_at; fresh = 13 }

abbrev die : Rng ℕ
die = record {
  new_source = λ seed. seed;
  intn = λ r n. (r + 1, r % n);
  intn_lt = λ r n pos. mod-lt r pos;
}

abbrev input : SelectionInput
input = record { estimated_cost = 5; cache_key = codes "k" }

loads-Covered : Covered loads.loads loads.backends
unfolding lookup
loads-Covered = ((10, refl), ((11, refl), ((12, refl), tt)))

has_healthy_backend-select_example :
    Answers loaded three
      (has_healthy_backend {R = ℕ} loaded (least_pending loads))
      (select memory_store die 7 loaded none (least_pending loads) input).decision
has_healthy_backend-select_example =
    has_healthy_backend-select memory_store die 7 loaded none (least_pending loads) input
      ((omega arith, omega arith), loads-Covered)

loads-IsSound : IsSound loaded loads.loads
unfolding lookup
loads-IsSound = record { below = λ b c e. ground arith; injective = λ a b c e e'. ground arith }

choose-Chooses_example : Chooses loaded loads.loads (rotate (4 % 3) three) (choose loaded loads).1
choose-Chooses_example = choose-Chooses loaded loads (omega arith) (omega arith) (omega arith)

abbrev turn : RoundRobin
turn = record { backends = three; next = 4 }

pick-first_healthy_example : (pick memory turn).1 ≡ first_healthy memory (rotate (4 % 3) three)
pick-first_healthy_example = pick-first_healthy memory turn (omega arith) (omega arith)

-- The counter has passed 2 ^ 63, where the index becomes negative.
abbrev far : RoundRobin
far = record { backends = three; next = two63 }

pick-panic_example : (pick memory far).1 ≡ panic
pick-panic_example =
    pick-panic memory far (omega arith) (omega arith) (omega arith) (omega arith) (omega arith)

abbrev all_well : Heap
all_well = record { backend = λ b. well (codes "a"); counter = λ c. 0; fresh = 0 }

picks-rotate_example :
    (picks 3 all_well turn ≡ map ok (rotate (4 % 3) three))
    × Perm (picks 3 all_well turn) (map ok three)
picks-rotate_example =
    picks-rotate all_well turn (unfold is_healthy in (refl, (refl, (refl, tt)))) (omega arith)
      (omega arith)

-- Seven picks of three backends.
picked-balance_example :
    (7 / 3 * times 1 three ≤ picked 1 (picks 7 all_well turn))
    × (picked 1 (picks 7 all_well turn) ≤ suc (7 / 3) * times 1 three)
picked-balance_example =
    picked-balance all_well turn 7 1 (omega arith) (unfold is_healthy in (refl, (refl, (refl, tt))))
      (omega arith) (omega arith)

-- The third backend waits for no more than three picks.
picks_every_example : Mem (ok 2) (picks 3 memory turn)
picks_every_example =
    picks_every memory turn 2 (omega arith) (omega arith)
      (mem-cons_of_mem 0 (mem-cons_of_mem 1 mem-cons_self)) (unfold is_healthy in refl)

set_backends-Rebuilt_example :
    let (h', s') = set_backends (2 ∷ 5 ∷ []) loaded loads in Rebuilt (2 ∷ 5 ∷ []) loaded loads h' s'
set_backends-Rebuilt_example = set_backends-Rebuilt (2 ∷ 5 ∷ []) loaded loads loads-IsSound

-- The third backend has the least load of those that are healthy.
abbrev third : Decision
third = record {
  backend = 2;
  pending_requests = 4;
  pending_cost = 0;
  cache_hit = false;
  release = some (12, neg64 1);
  released = false;
}

third_chosen :
    (select memory_store die 7 loaded none (least_pending loads) input).decision ≡ ok third
unfolding select LeastPending.select LeastPending.grant choose scan consider start_of slot srem64
    sub64 add64 neg64 slt64 is_healthy lookup add_counter
third_chosen = refl

release-select_example :
    (release third
        (select memory_store die 7 loaded none (least_pending loads) input).heap).1.counter
      12
    ≡ 3
release-select_example =
    release-select memory_store die 7 loaded none (least_pending loads) input third loads-IsSound
      (λ c. ground arith) third_chosen 12

-- A minute after the prompt was sent to `a`, which is healthy.
abbrev stored : MemoryStore
stored = (remember_backend 0 input.cache_key (codes "a") 60000000000 new_memory_store).0

a_unpadded : trim_space (codes "a") ≡ codes "a"
unfolding trim_space trim_left trim_right is_space
a_unpadded = refl

k_unpadded : trim_space input.cache_key ≡ input.cache_key
unfolding trim_space trim_left trim_right is_space
k_unpadded = refl

a_named : any_named loaded (trim_space (codes "a")) three ≡ true
unfolding is_healthy
a_named = rw a_unpadded refl

a_stored : (remember_backend 0 input.cache_key (codes "a") 60000000000 new_memory_store).1 ≡ true
unfolding remember_backend
a_stored = rw (k_unpadded, a_unpadded) refl

in_time : 59000000000 < 0 + lifetime 60000000000
unfolding lifetime
in_time = omega arith

select-remember_backend_example :
    (d : Decision) × ((KvAware.select memory_store 59000000000 loaded (some stored) loads input).1.2
      ≡ ok d)
    × (d.cache_hit ≡ true)
    × Mem d.backend three
    × (is_healthy loaded d.backend ≡ true)
    × ((loaded.backend d.backend).name ≡ trim_space (codes "a"))
select-remember_backend_example =
    select-remember_backend memory_store memory_store-StoreLaws 0 59000000000 60000000000
      (codes "a") new_memory_store loaded loads input (rw k_unpadded (λ e. cc))
      (rw a_unpadded (λ e. cc)) a_stored in_time loads-Covered a_named
