-- ===== src/Server/Tests.antt =====
-- A run of the server: the strategy is switched, and one request comes and is answered.
use infer_flow.Prelude.{ℕ, ◌%◌, ◌<◌, ◌%◌, ◌<◌, ◌≡◌, refl, map, false, [], ◌∷◌, none, some, arith}
use infer_flow.Text.{codes, trim_space, trim_left, trim_right, is_space, to_lower, replace_char}
use infer_flow.Assoc.{lookup, insert}
use infer_flow.Int64.{two63, two64, add64, sub64, srem64, slt64, neg64}
use infer_flow.Cache.Memory.{MemoryStore, new_memory_store, memory_store}
use infer_flow.Router.Heap.{is_healthy, add_counter, new_counter}
use infer_flow.Router.Slots.{start_of, slot}
use infer_flow.Router.Loads
use infer_flow.Router.LeastPending
use infer_flow.Router.Strategy.{least_pending_name, kv_aware_name}
use infer_flow.Router.Strategy
use infer_flow.Server.Samples.{die, whole, one_memory, config, question, no_digest, keep}
use infer_flow.Server.Names.{named, normalize_strategy_name, is_offered}
use infer_flow.Server.Request.{validate_chat_request, build_cache_key}
use infer_flow.Server.State.{new_server, set_strategy, make_strategy}
use infer_flow.Server.Chat.{get, post, Pending, open_chat, accept, dispatch}
use infer_flow.Server.Status.{StatusReport, backend_statuses, handle_status}
use infer_flow.Server.Status.Reported.{IsReport, Reach-IsReport}
use infer_flow.Server.Status.Pending.{sent_in, Reach-pending}
use infer_flow.Server.System.{
  System, opened, closed, switched, opens, closes, switches, Reach, here, next, initial,
}
use infer_flow.Server.System.Units.{holders}
use infer_flow.Server.System.Load.{Reach-holders}
use infer_flow.Server.System.Equipped.{turns}
use infer_flow.Server.System.Ledger.{IsLedger, Reach-IsLedger}

abbrev Run : System MemoryStore ℕ ℕ → Type 0
Run = Reach memory_store die whole keep no_digest (initial config new_memory_store one_memory)

abbrev start : System MemoryStore ℕ ℕ
start = initial config new_memory_store one_memory

abbrev least : System MemoryStore ℕ ℕ
least = switched die keep (codes "least-pending") start

abbrev waiting : System MemoryStore ℕ ℕ
waiting = opened memory_store die no_digest 7 post (some question) least

-- The request holds the counter of backend 0.
abbrev held : Pending ℕ
held = record {
  request = question;
  decision = record {
    backend = 0;
    pending_requests = 1;
    pending_cost = 0;
    cache_hit = false;
    release = some (0, neg64 1);
    released = false;
  };
  strategy_name = least_pending_name;
  cache_key = build_cache_key no_digest (codes "m") question.messages;
  started = 7;
}

one_waits : waiting.active ≡ held ∷ []
unfolding set_strategy normalize_strategy_name trim_space open_chat validate_chat_request accept
    dispatch Strategy.select replace_char to_lower make_strategy LeastPending.select
    LeastPending.new_least_pending Loads.set_backends new_server Loads.choose Loads.scan Loads.track
    Loads.consider LeastPending.grant slot srem64 add64 insert lookup neg64 slt64 sub64 add_counter
    is_healthy new_counter start_of is_offered is_space trim_left trim_right
one_waits = refl

abbrev answered : System MemoryStore ℕ ℕ
answered = closed memory_store whole 9000000 none held [] waiting

run : Run answered
run =
    next (next (next here (switches (codes "least-pending"))) (opens 7 post (some question)))
      (closes 9000000 none [] [] held one_waits)

-- While one request waits.
while_waiting : Run waiting
while_waiting = next (next here (switches (codes "least-pending"))) (opens 7 post (some question))

Reach-holders_example : waiting.server.heap.counter 0 ≡ holders 0 waiting.active % two64
Reach-holders_example =
    Reach-holders memory_store die whole keep no_digest config new_memory_store one_memory
      (λ c. refl) while_waiting 0

few_turns : turns least.server.strategy < two63
unfolding turns set_strategy normalize_strategy_name trim_space replace_char to_lower make_strategy
    LeastPending.new_least_pending Loads.set_backends new_server Loads.track is_offered is_space
    trim_left trim_right insert lookup new_counter
few_turns = omega arith

Reach-IsLedger_example : IsLedger answered.server.metrics
Reach-IsLedger_example =
    Reach-IsLedger memory_store die whole keep no_digest config new_memory_store one_memory run

kv_aware_named : normalize_strategy_name keep (codes " kv-aware") ≡ named kv_aware_name
unfolding normalize_strategy_name is_offered trim_space trim_left trim_right is_space to_lower
    replace_char
kv_aware_named = refl

Reach-pending_example :
    map (λ r. r.pending) (backend_statuses whole answered.server)
    ≡ map
        (λ b. sent_in memory_store die whole keep no_digest (one_memory.backend b).name run % two64)
        config.backends
Reach-pending_example =
    Reach-pending memory_store die whole keep no_digest config new_memory_store one_memory run

Reach-IsReport_example :
    (r : StatusReport ℕ) × (handle_status whole waiting.server get
      ≡ some (record {
        status = 200;
        headers = (codes "Content-Type", codes "application/json") ∷ [];
        body = r;
      }))
    × IsReport config one_memory waiting r
Reach-IsReport_example =
    Reach-IsReport memory_store die whole keep no_digest config new_memory_store one_memory
      (λ c. refl) while_waiting
