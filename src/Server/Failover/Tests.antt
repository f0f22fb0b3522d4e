-- ===== src/Server/Failover/Tests.antt =====
-- A request to the first of two backends fails, and the next one comes.
use infer_flow.Prelude.{ℕ, ◌≡◌, ◌≢◌, refl, Mem, [], true, none, some, arith}
use mathlib.Core.List.{mem-cons_self, mem-cons_of_mem}
use infer_flow.Cache.Memory.{MemoryStore, new_memory_store, memory_store}
use infer_flow.Router.Heap.{is_healthy}
use infer_flow.Router.RoundRobin.{new_round_robin}
use infer_flow.Router.Strategy.{backends_of}
use infer_flow.Router.Strategy.Serves.{IsReady}
use infer_flow.Router.Decision.{no_release}
use infer_flow.Server.Samples.{die, whole, one_memory, config, question, question_valid, no_digest}
use infer_flow.Server.State.{Server, new_server}
use infer_flow.Server.Chat.{post, Pending, dispatched, open_chat, close_chat}
use infer_flow.Server.Failover.{open_chat-close_chat_failed}

abbrev fresh_server : Server MemoryStore ℕ ℕ
fresh_server = new_server config new_memory_store one_memory

-- The request waits for backend 0.
abbrev failing : Pending ℕ
failing = record {
  request = question;
  decision = no_release 0;
  strategy_name = fresh_server.strategy_name;
  cache_key = [];
  started = 7;
}

fresh-IsReady : IsReady fresh_server.strategy
unfolding new_server new_round_robin
fresh-IsReady = (omega arith, omega arith)

second_healthy : is_healthy fresh_server.heap 1 ≡ true
unfolding new_server is_healthy
second_healthy = refl

second_listed : Mem 1 (backends_of fresh_server.strategy)
unfolding new_server new_round_robin
second_listed = mem-cons_of_mem 0 mem-cons_self

open_chat-close_chat_failed_example :
    let s' = (close_chat memory_store whole 9 fresh_server failing none).0 in
    (q : Pending ℕ) × ((open_chat memory_store die no_digest 11 s' post (some question)).1
      ≡ dispatched q)
    × Mem q.decision.backend (backends_of fresh_server.strategy)
    × (q.decision.backend ≢ 0)
    × (is_healthy fresh_server.heap q.decision.backend ≡ true)
open_chat-close_chat_failed_example =
    open_chat-close_chat_failed memory_store whole die no_digest 9 11 1 fresh_server failing
      question question_valid fresh-IsReady second_listed second_healthy (λ e. omega arith)
