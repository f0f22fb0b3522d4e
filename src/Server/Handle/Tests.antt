-- ===== src/Server/Handle/Tests.antt =====
-- A request that comes to a server that has just started, and whose backend answers.
use infer_flow.Prelude.{ℕ, ◌/◌, ◌<◌, ◌≡◌, refl, some, arith}
use infer_flow.Text.{codes}
use infer_flow.Int64.{two63}
use infer_flow.Cache.Memory.{MemoryStore, new_memory_store, memory_store}
use infer_flow.Proxy.{replied}
use infer_flow.Proxy.Client.{Net}
use infer_flow.Router.RoundRobin.{new_round_robin}
use infer_flow.Server.Samples.{die, whole, one_memory, config, question, no_digest, keep}
use infer_flow.Server.State.{new_server}
use infer_flow.Server.Chat.{post}
use infer_flow.Server.Handle.{handle_chat_completions}
use infer_flow.Server.Handle.Outcomes.{Handled}
use infer_flow.Server.Handle.Running.{Reach-Handled}
use infer_flow.Server.System.{System, here, initial}
use infer_flow.Server.System.Equipped.{turns}

abbrev friendly : Net ℕ
friendly = record {
  get = λ url. replied 200 (some tt);
  post = λ url r. replied 200 (some (record { model = codes "m"; output_text = codes "Hello" }));
}

abbrev start : System MemoryStore ℕ ℕ
start = initial config new_memory_store one_memory

few_turns : turns start.server.strategy < two63
unfolding turns new_server new_round_robin
few_turns = omega arith

Reach-Handled_example :
    let (s', reply) =
      handle_chat_completions memory_store die whole no_digest friendly 7 9000000000 start.server
        post
        (some question) in
    Handled friendly
      (9000000000 / 1000000000)
      config.backends
      start.server
      post
      (some question)
      s'
      reply
    × ((c : ℕ) → s'.heap.counter c ≡ start.server.heap.counter c)
    × (s'.metrics.in_flight ≡ start.server.metrics.in_flight)
Reach-Handled_example =
    Reach-Handled memory_store die whole keep no_digest friendly config new_memory_store one_memory
      7 9000000000 post (some question) (λ c. refl) here (omega arith) few_turns
